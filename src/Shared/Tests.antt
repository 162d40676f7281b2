-- ===== src/Shared/Tests.antt =====
-- Runs of shared/agentclient.
use libre_kde.Base.{false, codes, is_empty, ◌≡◌}
use libre_kde.Shared.Agent.{ErrorCode, CallError}
use libre_kde.Shared.ErrorText.{for_outcome}
use libre_kde.Shared.ErrorText.Floor.{for_outcome-spoken}
use libre_kde.Shared.Samples.{plain, plain-IsSpoken}

for_outcome-spoken_example :
    is_empty (
      for_outcome plain ErrorCode.card_removed CallError.timeout
        (codes "op.cancelled")
        (codes "gone"))
    ≡ false
for_outcome-spoken_example =
    for_outcome-spoken plain plain-IsSpoken ErrorCode.card_removed CallError.timeout
      (codes "op.cancelled") (codes "gone")
