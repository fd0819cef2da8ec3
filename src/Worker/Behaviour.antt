-- ===== src/Worker/Behaviour.antt =====
-- What a run of a worker function is handed goes along the lifecycle of the job records.
use rag_llm.Prelude.{Option, none, some, List, [], ◌∷◌}
use rag_llm.World.{World}
use rag_llm.World.Follows.{Behaves}
use rag_llm.Worker.Task.{Exit, Poll, Run}

abbrev pub BehavesExit : {R : Type 0} → Option (Exit (World R)) → Type 0
BehavesExit none = Unit
BehavesExit (some e) = Behaves e.others

abbrev pub BehavesPolls : {R : Type 0} → List (Poll (World R)) → Type 0
BehavesPolls [] = Unit
BehavesPolls (p ∷ ps) = Behaves p.others × BehavesExit p.exit × BehavesPolls ps

pub record BehavesRun {R : Type 0} (run : Run (World R)) : Type 0 where
  pub before : Behaves run.others
  pub during : BehavesPolls run.polls
