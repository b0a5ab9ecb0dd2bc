-- ===== src/HookDelay/State.antt =====
-- The options and the state of the processor of lib/utils/action-hook-delay.js, and its constructor.
use jambonz_feature_server.Prelude.{
  ℕ, Bool, true, false, not, ◌&&◌, ◌||◌, Option, none, some, List, [], ◌∷◌, ltb, all, is_some,
  if◌then◌else◌,
}

-- The verb of an action, and the name of the task in progress.
pub data Verb : Type 0 where
  say play other missing : Verb

pub record Opts : Type 0 where
  pub actions : Option (List Verb)
  pub retries : Option ℕ
  pub no_response_timeout : ℕ
  pub no_response_give_up_timeout : ℕ
  pub give_up_actions : Bool
  pub enable : Option Bool
  pub enabled : Option Bool

pub data Event : Type 0 where
  giveup giveup_with_tasks killed_audio killed_play : Event
  started : Verb → Event

-- `_sayResolver`: not set, the function that only clears the task, or the resolver of a promise.
pub data Resolver : Type 0 where
  unset clears resolves : Resolver

pub record Processor : Type 0 where
  pub actions : Option (List Verb)
  pub retries : ℕ
  pub no_response_timeout : ℕ
  pub no_response_give_up_timeout : ℕ
  pub give_up_actions : Bool
  pub active : Bool
  pub retry_count : ℕ
  -- The two handles, the timers that are still to fire, and the name of the next one.
  pub no_response_timer : Option ℕ
  pub give_up_timer : Option ℕ
  pub no_response_armed : List ℕ
  pub give_up_armed : List ℕ
  pub next_timer : ℕ
  pub task_in_progress : Option Verb
  -- `_sayResolver`, and how many promises of `stop` are not resolved.
  pub say_resolver : Resolver
  pub unresolved : ℕ
  -- How many listeners wait for `playback-stop`, and whether the endpoint is there.
  pub listeners : ℕ
  pub ep : Bool
  pub out : List Event

abbrev pub is : Option Bool → Bool → Bool
is none d = d
is (some b) d = b

abbrev pub value_or : Option ℕ → ℕ
value_or none = 0
value_or (some n) = n

-- `init`: the options, and whether they enable the processor.
unfoldable pub init : Opts → Processor → Processor × Bool
init opts p = (
  record p {
    actions = opts.actions;
    retries = value_or opts.retries;
    no_response_timeout = opts.no_response_timeout;
    no_response_give_up_timeout = opts.no_response_give_up_timeout;
    give_up_actions = opts.give_up_actions;
  },
  is opts.enable false
      || is opts.enabled false
      || (not (is_some opts.enable) && not (is_some opts.enabled)),
)

abbrev pub is_speech : Verb → Bool
is_speech say = true
is_speech play = true
is_speech other = false
is_speech missing = false

abbrev pub has_actions : Option (List Verb) → Bool
has_actions none = false
has_actions (some []) = false
has_actions (some (_ ∷ _)) = true

abbrev pub all_speech : Option (List Verb) → Bool
all_speech none = true
all_speech (some vs) = all is_speech vs

abbrev pub blank : Bool → Processor
blank ep = record {
  actions = none;
  retries = 0;
  no_response_timeout = 0;
  no_response_give_up_timeout = 0;
  give_up_actions = false;
  active = false;
  retry_count = 0;
  no_response_timer = none;
  give_up_timer = none;
  no_response_armed = [];
  give_up_armed = [];
  next_timer = 0;
  task_in_progress = none;
  say_resolver = unset;
  unresolved = 0;
  listeners = 0;
  ep = ep;
  out = [];
}

-- `new ActionHookDelayProcessor(logger, opts, cs)`, `none` where it throws.
unfoldable pub create : Opts → Bool → Option Processor
unfolding init
create opts ep =
    let (p, enabled) = init opts (blank ep) in
    if enabled && ltb 0 p.no_response_timeout && not (has_actions p.actions)
    then none
    else if enabled && not (all_speech p.actions)
    then none
    else some p
