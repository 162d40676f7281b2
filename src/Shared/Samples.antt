-- ===== src/Shared/Samples.antt =====
-- A catalogue, a card, a reader and a client that the tests of the components share.
use libre_kde.Base.{true, codes, ◌∷◌, [], some, refl, arith}
use libre_kde.Shared.Agent.{AgentState, FailureSource}
use libre_kde.Shared.ErrorText.{Texts}
use libre_kde.Shared.ErrorText.Floor.{IsSpoken}
use libre_kde.Shared.Registry.{ReaderInterface, AgentCard, AgentReader, AgentClient}

-- The English message behind a mark, without its arguments.
abbrev pub plain : Texts
plain = record {
  translate = λ msgid args. b'>' ∷ msgid;
  describe_failure = λ code call key fallback. record {
    source = FailureSource.error_code;
    key = key;
    code = code;
    call = call;
    detail = fallback;
  };
}

pub plain-IsSpoken : IsSpoken plain
plain-IsSpoken = record {
  translated = λ msgid args. refl;
  detailed = λ code call key fallback e. absurd (ground arith);
}

abbrev pub card : AgentCard
card = record {
  object = 7;
  id = codes "c1";
  reader_id = codes "r1";
  card_type = codes "eid";
  capabilities = λ cap. true;
  pre_read_auth = codes "none";
}

abbrev pub reader : AgentReader
reader = record {
  id = codes "r1";
  name = codes "Reader";
  model = codes "Model";
  interface = ReaderInterface.contact;
  has_card = true;
  card_id = codes "c1";
  card = some card;
}

abbrev pub client : AgentClient
client = record {
  readers = reader ∷ [];
  reader = λ id. some reader;
  card = λ id. some card;
  is_available = true;
  agent_state = AgentState.ready;
}
