-- ===== src/Credentials/Main.antt =====
-- components/credentials/src/main.cpp: the readers that the window is told to bind.
use libre_kde.Base.{Text, codes, text_eq, List, [], ◌∷◌, Option, none, some, if◌then◌else◌}
use libre_kde.Shared.ErrorText.{Texts}
use libre_kde.Credentials.Controller.{Controller}
use libre_kde.Credentials.Controller.Binding.{bind_reader}

-- The first launch: the value of `--reader` as Qt's parser read it, where it was set.
unfoldable pub launched : Texts → Option Text → Controller → Controller
unfolding bind_reader
launched texts none s = s
launched texts (some reader) s = bind_reader texts reader s

bind_if : Texts → Text → Text → Controller → Controller
unfolding bind_reader
bind_if texts arg next s = if text_eq arg (codes "--reader") then bind_reader texts next s else s

-- The slot on `activateRequested`, on the arguments of a later launch.
unfoldable pub activate_requested : Texts → List Text → Controller → Controller
unfolding bind_if
activate_requested texts [] s = s
activate_requested texts (arg ∷ []) s = s
activate_requested texts (arg ∷ next ∷ args) s =
    activate_requested texts (next ∷ args) (bind_if texts arg next s)
