-- ===== src/Accounts.antt =====
-- internal/server/account_metrics.go: the counters of the account breaker's decisions and their
-- text. Of the library's events only the fields are read; the text of an event's kind and of a
-- circuit's state come from the library.
pub mod Counts
pub mod Labels
pub mod Lines
pub mod States
use smolllm_server.Base.{
  ℕ, ◌+◌, [], Eq, text_eq, text_discrete, Text, Dict, lookup, insert, ℕ_discrete,
}
use smolllm_server.Stats.{get_or}

-- `accountID`
pub record AccountId : Type 0 where
  pub provider : Text
  pub account : Text

-- `accountTransitionKey`
pub record TransitionKey : Type 0 where
  pub id : AccountId
  pub transition : Text

-- `accountLegKey`
pub record LegKey : Type 0 where
  pub alias : Text
  pub id : AccountId
  pub model : Text

-- `accountSkipKey`
pub record SkipKey : Type 0 where
  pub leg : LegKey
  pub reason : Text

AccountId-discrete : Discrete AccountId
unfolding text_discrete
AccountId-discrete = hlevel text_discrete

TransitionKey-discrete : Discrete TransitionKey
unfolding text_discrete AccountId-discrete
TransitionKey-discrete = hlevel (text_discrete, AccountId-discrete)

LegKey-discrete : Discrete LegKey
unfolding text_discrete AccountId-discrete
LegKey-discrete = hlevel (text_discrete, AccountId-discrete)

SkipKey-discrete : Discrete SkipKey
unfolding text_discrete LegKey-discrete
SkipKey-discrete = hlevel (text_discrete, LegKey-discrete)

instance unfoldable pub account_id_eq : Eq AccountId
unfolding AccountId-discrete
account_id_eq = record { dec = AccountId-discrete }

instance unfoldable pub transition_key_eq : Eq TransitionKey
unfolding TransitionKey-discrete
transition_key_eq = record { dec = TransitionKey-discrete }

instance unfoldable pub leg_key_eq : Eq LegKey
unfolding LegKey-discrete
leg_key_eq = record { dec = LegKey-discrete }

instance unfoldable pub skip_key_eq : Eq SkipKey
unfolding SkipKey-discrete
skip_key_eq = record { dec = SkipKey-discrete }

-- `accountMetrics`; a set is a map to the unit
pub record AccountMetrics : Type 0 where
  pub transitions : Dict TransitionKey ℕ
  pub skips : Dict SkipKey ℕ
  pub probes : Dict LegKey ℕ
  pub fail_opens : Dict LegKey ℕ
  pub unrecognized_429 : Dict LegKey ℕ
  pub seen : Dict AccountId (Unit {0})

-- `newAccountMetrics`
abbrev pub new_metrics : AccountMetrics
new_metrics = record {
  transitions = [];
  skips = [];
  probes = [];
  fail_opens = [];
  unrecognized_429 = [];
  seen = [];
}

-- `smolllm.AccountEventKind`: the kinds that the source names, and any other
pub data Kind : Type 0 where
  opened closed skipped probing fail_open unrecognized : Kind
  other : Text → Kind

-- `smolllm.AccountEvent`
pub record AccountEvent : Type 0 where
  pub kind : Kind
  pub provider : Text
  pub account : Text
  pub model_name : Text
  pub skip_reason : Text

abbrev pub id_of : AccountEvent → AccountId
id_of e = record { provider = e.provider; account = e.account }

abbrev pub leg_of : Text → AccountEvent → LegKey
leg_of alias e = record { alias = alias; id = id_of e; model = e.model_name }

abbrev pub skip_of : Text → AccountEvent → SkipKey
skip_of alias e = record { leg = leg_of alias e; reason = e.skip_reason }

-- `m[k]++`
abbrev pub increment {ℓ} : {K : Type ℓ} → ⦃e : Eq K⦄ → K → Dict K ℕ → Dict K ℕ
increment k m = insert k (get_or (lookup k m) 0 + 1) m

-- `string(e.Kind)` of the kinds
module _ (kind_text : Kind → Text) where
  abbrev pub transition_of : AccountEvent → TransitionKey
  transition_of e = record { id = id_of e; transition = kind_text e.kind }

  -- the `switch` of `record`
  unfoldable pub count_event : Text → AccountEvent → Kind → AccountMetrics → AccountMetrics
  count_event alias e opened m = record m {
    transitions = increment (transition_of e) m.transitions;
  }
  count_event alias e closed m = record m {
    transitions = increment (transition_of e) m.transitions;
  }
  count_event alias e skipped m = record m { skips = increment (skip_of alias e) m.skips }
  count_event alias e probing m = record m { probes = increment (leg_of alias e) m.probes }
  count_event alias e fail_open m = record m {
    fail_opens = increment (leg_of alias e) m.fail_opens;
  }
  count_event alias e unrecognized m = record m {
    unrecognized_429 = increment (leg_of alias e) m.unrecognized_429;
  }
  count_event alias e (other _) m = m

  -- `record`
  unfoldable pub record_account : Text → AccountEvent → AccountMetrics → AccountMetrics
  unfolding count_event
  record_account alias e m =
      count_event alias e e.kind (record m { seen = insert (id_of e) tt m.seen })
