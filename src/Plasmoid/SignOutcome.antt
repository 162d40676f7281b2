-- ===== src/Plasmoid/SignOutcome.antt =====
-- components/plasmoid/src/SmartCardHandler.h: how a signing ended, until it is dismissed.
pub data SignOutcome : Type 0 where
  none succeeded failed : SignOutcome
