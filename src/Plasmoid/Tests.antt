-- ===== src/Plasmoid/Tests.antt =====
-- Runs of the widget's choice: a reader whose slot number moved is still the bound one.
use libre_kde.Base.{
  true, List, ◌&&◌, leb, text_eq, Text, codes, [], ◌∷◌, none, some, In, ◌≡◌, ◌⊎◌, inl, refl,
}
use libre_kde.Shared.Agent.{ErrorCode, CallError, OperationStatus}
use libre_kde.Shared.Registry.{first_with_card, AgentReader}
use libre_kde.Shared.Samples.{plain, reader, client}
use libre_kde.Plasmoid.CardState.{UiState}
use libre_kde.Plasmoid.Handler.{Library, Handler, read_identity}
use libre_kde.Plasmoid.Handler.Slots.{Report, new_handler, set_view_active, on_operation_finished}
use libre_kde.Plasmoid.Handler.Machine.{
  Event, registry, card_destroyed, identity_finished, view_moved, step, run, AllPossible,
}
use libre_kde.Plasmoid.Handler.Privacy.{IsTidy, run-IsTidy}
use libre_kde.Plasmoid.Handler.Unasked.{IsFree, step-IsFree}
use libre_kde.Plasmoid.Unit.{Chars, same_reader_unit, reader_serial_key, reader_base_name}
use libre_kde.Plasmoid.Reader.{Widget, pick_active_reader, reader_with_card_by_name}
use libre_kde.Plasmoid.Reader.Active.{IsShown, pick_active_reader-IsShown}

abbrev chars : Chars
chars = record { is_space = λ c. leb c 32; is_digit = λ c. leb 48 c && leb c 57 }

abbrev old_name : Text
old_name = codes "Twin (69988A87) 02 00"

abbrev new_name : Text
new_name = codes "Twin (69988A87) 00 00"

abbrev twin : AgentReader
twin = record reader { name = new_name }

abbrev widget : Widget
widget = record {
  client = record client { readers = twin ∷ [] };
  bound_reader_name = old_name;
  selected_reader_name = [];
}

same-unit : same_reader_unit chars old_name new_name ≡ true
unfolding same_reader_unit reader_serial_key reader_base_name text_eq
same-unit = refl

pick_active_reader-IsShown_example : IsShown chars widget (some twin)
unfolding pick_active_reader reader_with_card_by_name same_reader_unit reader_serial_key
    reader_base_name text_eq
pick_active_reader-IsShown_example = pick_active_reader-IsShown chars widget

abbrev library : Library
library = record {
  unlock_required = λ token. text_eq token (codes "can");
  resolve_card_state = λ caps seen. UiState.hybrid;
  decodes = λ bytes. true;
  chars = chars;
}

-- The client ends the read of the identity, deletes the card, and signals that it is gone.
abbrev pulled : Report
pulled = record {
  status = OperationStatus.ok;
  error_code = ErrorCode.none;
  call_error = CallError.none;
  message_key = [];
  message_fallback = [];
  identity = (codes "surname", codes "Doe") ∷ [];
  payload = none;
}

abbrev seen_card : List Event
seen_card = view_moved true ∷ identity_finished 0 pulled ∷ card_destroyed ∷ registry client ∷ []

may_happen : AllPossible plain library (new_handler library client) seen_card
unfolding step new_handler pick_active_reader set_view_active first_with_card text_eq
    on_operation_finished
may_happen = (tt, (tt, (refl, (tt, tt))))

run-IsTidy_example : IsTidy true (run plain library (new_handler library client) seen_card)
run-IsTidy_example = run-IsTidy plain library client seen_card may_happen

abbrev shown : Handler
shown = new_handler library client

begins : In (read_identity 7 0) (step plain library shown (view_moved true)).log
unfolding step new_handler pick_active_reader set_view_active first_with_card text_eq
begins = inl refl

step-IsFree_example :
    In (read_identity 7 0) shown.log ⊎ IsFree library (step plain library shown (view_moved true)) 7
step-IsFree_example = step-IsFree plain library shown (view_moved true) 7 0 tt begins
