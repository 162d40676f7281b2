-- ===== src/Plasmoid/Actions/Tests.antt =====
-- Presses on a widget that shows a reader with a card.
use libre_kde.Base.{
  true, Text, codes, text_eq, List, [], ◌∷◌, some, In, ◌≡◌, refl, sym, ap, ◌∙◌, inl, inr, arith,
  if◌then◌else◌, after_slash, leb, ◌&&◌, length,
}
use libre_kde.Shared.Registry.{AgentCard, AgentReader, first_with_card}
use libre_kde.Shared.Samples.{plain, card, reader, client}
use libre_kde.Kio.Source.{CardDataSource, ready, ReadStatus}
use libre_kde.Kio.Tree.{NodeKind, resolve}
use libre_kde.Kio.AgentSource.{list_readers_with_cards}
use libre_kde.Plasmoid.CardState.{UiState}
use libre_kde.Plasmoid.Handler.{Library, Handler, refresh}
use libre_kde.Plasmoid.Handler.Slots.{new_handler}
use libre_kde.Plasmoid.Reader.{pick_active_reader}
use libre_kde.Plasmoid.Actions.{
  open_url, launch_command, write_file, card_url_for_reader, open_in_files, credentials_exe,
  manage_credentials, locate_libre_celik, save_photo,
}
use libre_kde.Plasmoid.Actions.Reached.{
  IsConsistent, open_in_files-resolve, manage_credentials-activate_requested,
}
use libre_kde.Credentials.Controller.{init}
use libre_kde.Credentials.Controller.Binding.{bind_reader}
use libre_kde.Credentials.Main.{activate_requested}

abbrev library : Library
library = record {
  unlock_required = λ token. text_eq token (codes "can");
  resolve_card_state = λ caps seen. UiState.hybrid;
  decodes = λ bytes. true;
  chars = record { is_space = λ c. leb c 32; is_digit = λ c. leb 48 c && leb c 57 };
}

abbrev widget : Handler
widget = new_handler library client

-- The worker's answers beside its list are not asked for.
abbrev source : CardDataSource
source = record {
  list_readers_with_cards = list_readers_with_cards plain client;
  read_identity = λ name. record { status = ReadStatus.error; fields = []; message = [] };
  read_certificates = λ name. record { status = ReadStatus.error; certs = []; message = [] };
  get_photo = λ name. record { status = ReadStatus.error; bytes = []; message = [] };
  get_certificate_der = λ name id. record { status = ReadStatus.error; der = []; message = [] };
  agent_state = ready;
}

client-IsConsistent : IsConsistent client
client-IsConsistent = record { held = held_here }
  where
    held_here :
        (r : AgentReader) (c : AgentCard)
        → In r (reader ∷ [])
        → r.card ≡ some c
        → (r.has_card ≡ true) × (client.card r.card_id ≡ some c)
    held_here r c (inl same) e =
        (ap (λ (x : AgentReader). x.has_card) same, ap (λ (x : AgentReader). x.card) (sym same) ∙ e)
    held_here r c (inr i) e = elim i [ ]

shows_reader : pick_active_reader library.chars widget.widget ≡ some reader
unfolding new_handler pick_active_reader first_with_card
shows_reader = refl

open_in_files-resolve_example :
    In
      (open_url (card_url_for_reader (λ path. path) (codes "Reader")))
      (open_in_files library (λ path. path) (refresh library widget))
    × ((resolve source (card_url_for_reader (λ path. path) (codes "Reader"))).kind
        ≡ NodeKind.reader)
    × ((resolve source (card_url_for_reader (λ path. path) (codes "Reader"))).reader_name
        ≡ codes "Reader")
unfolding new_handler pick_active_reader first_with_card
open_in_files-resolve_example =
    open_in_files-resolve plain library (λ path. path) widget reader source client-IsConsistent refl
      refl shows_reader (refl, omega arith)

manage_credentials-activate_requested_example :
    (args : List Text) × (desktop : Text) × (manage_credentials (refresh library widget)
      ≡ launch_command credentials_exe args desktop ∷ [])
    × (activate_requested plain (credentials_exe ∷ args) (init true client)
        ≡ bind_reader plain (codes "r1") (init true client))
unfolding new_handler refresh pick_active_reader first_with_card
manage_credentials-activate_requested_example =
    manage_credentials-activate_requested plain (refresh library widget) card (init true client)
      refl

-- A wrapper's entry is not taken for LibreCelik.
wrapped :
    locate_libre_celik (record {
      find_executable = λ name. if text_eq name (codes "flatpak") then name else [];
      exec_words = some (codes "flatpak" ∷ codes "librecelik" ∷ []);
      lower_case = λ s. s;
    })
    ≡ []
unfolding locate_libre_celik text_eq after_slash
wrapped = refl

saved :
    save_photo
      (record {
        opens = λ path. true;
        written = λ path bytes. length bytes;
        commits = λ path. true;
      })
      (record {
        is_valid = true;
        local_file = some (codes "/tmp/p.jpg");
        path = codes "/tmp/p.jpg";
      })
      (record {
        slot = 1;
        token = 1;
        bytes = 7 ∷ [];
        has_card_photo = true;
        card_photo_url = [];
        suggested_file_name = [];
      })
    ≡ write_file (codes "/tmp/p.jpg") (7 ∷ []) ∷ []
unfolding save_photo
saved = refl
