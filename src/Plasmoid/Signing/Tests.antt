-- ===== src/Plasmoid/Signing/Tests.antt =====
-- A signing of a widget, run to its end, and one that is still running after the card was swapped.
use libre_kde.Base.{Text, codes, text_eq, List, [], ◌∷◌, Option, none, some, ◌≡◌, refl}
use libre_kde.Base.Groups.{contains}
use libre_kde.Plasmoid.SignOutcome.{SignOutcome}
use libre_kde.Plasmoid.Signing.{
  surfaces, surfaces_of, retarget, active_sign_state, publish_sign_surfaces, prune,
}
use libre_kde.Plasmoid.Signing.Slots.{sign_file, on_succeeded}
use libre_kde.Plasmoid.Signing.Machine.{
  Event, registry, card_deleted, sign_pressed, succeeded, step, run, new_signer,
}
use libre_kde.Plasmoid.Signing.Mirror.{IsMirrored, run-IsMirrored}
use libre_kde.Plasmoid.Signing.Told.{IsTold, run-IsTold}

abbrev reader : Text
reader = codes "R"

abbrev no_url : Text → Option Text
no_url url = none

abbrev signed : List Event
signed =
    registry (reader ∷ []) reader (some 7)
    ∷ sign_pressed (codes "/tmp/a.pdf")
    ∷ succeeded 0 (codes "/tmp/a-signed.pdf") (codes "B-T")
    ∷ []

abbrev swapped : List Event
swapped =
    registry (reader ∷ []) reader (some 7)
    ∷ sign_pressed (codes "/tmp/a.pdf")
    ∷ card_deleted 7
    ∷ registry (reader ∷ []) reader (some 8)
    ∷ []

signed-shown : (surfaces (run no_url new_signer signed)).outcome ≡ SignOutcome.succeeded
unfolding run step surfaces retarget prune sign_file on_succeeded active_sign_state
    publish_sign_surfaces text_eq
signed-shown = refl

-- The new card in the reader shows nothing of the signing that the old one began.
swapped-shown : surfaces (run no_url new_signer swapped) ≡ surfaces_of none
unfolding run step surfaces retarget prune sign_file active_sign_state publish_sign_surfaces text_eq
    contains
swapped-shown = refl

signed-card : (run no_url new_signer signed).card ≡ some 7
unfolding run step retarget sign_file on_succeeded publish_sign_surfaces text_eq
signed-card = refl

run-IsMirrored_example : IsMirrored (run no_url new_signer swapped)
run-IsMirrored_example = run-IsMirrored no_url swapped

run-IsTold_example :
    IsTold signed
      (run no_url new_signer signed).begun
      (run no_url new_signer signed).reader_name
      7
      (surfaces (run no_url new_signer signed))
run-IsTold_example = run-IsTold signed no_url 7 signed-card
