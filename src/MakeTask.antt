-- ===== src/MakeTask.antt =====
-- lib/tasks/make_task.js: the task of a verb of an application. The own keys of an object that was parsed
-- from JSON are given with their values; `validateVerb` of @jambonz/verb-specifications is a parameter,
-- which throws where it yields `false`.
pub mod Dispatch
use jambonz_feature_server.Prelude.{
  Bool, true, false, List, [], ◌∷◌, if◌then◌else◌, String, Units, units, same,
}

-- What `typeof` tells of a value; an object may be an array or null.
pub data Typed : Type 0 where
  object text number boolean : Typed

-- The classes of lib/tasks that `makeTask` makes an instance of.
pub data TaskClass : Type 0 where
  answer sip_decline sip_request sip_refer config conference dial dialogflow dequeue dtmf dub
        enqueue :
      TaskClass
  hangup leave lex message llm rasa say play pause gather transcribe listen redirect : TaskClass
  rest_dial tag alert : TaskClass

pub data Made : Type 0 where
  bad_instruction invalid_data invalid_verb : Made
  task : TaskClass → Made

-- `TaskName`, of lib/utils/constants.json, as far as `makeTask` has a case for it.
abbrev pub cases : List (String × TaskClass)
cases =
    ("answer", answer)
    ∷ ("sip:decline", sip_decline)
    ∷ ("sip:request", sip_request)
    ∷ ("sip:refer", sip_refer)
    ∷ ("config", config)
    ∷ ("conference", conference)
    ∷ ("dial", dial)
    ∷ ("dialogflow", dialogflow)
    ∷ ("dequeue", dequeue)
    ∷ ("dtmf", dtmf)
    ∷ ("dub", dub)
    ∷ ("enqueue", enqueue)
    ∷ ("hangup", hangup)
    ∷ ("leave", leave)
    ∷ ("lex", lex)
    ∷ ("message", message)
    ∷ ("llm", llm)
    ∷ ("rasa", rasa)
    ∷ ("say", say)
    ∷ ("play", play)
    ∷ ("pause", pause)
    ∷ ("gather", gather)
    ∷ ("transcribe", transcribe)
    ∷ ("listen", listen)
    ∷ ("stream", listen)
    ∷ ("redirect", redirect)
    ∷ ("rest:dial", rest_dial)
    ∷ ("tag", tag)
    ∷ ("alert", alert)
    ∷ []

unfoldable pub switch : Units → List (String × TaskClass) → Made
switch name [] = invalid_verb
switch name ((verb, class) ∷ rest) = if same name (units verb) then task class else switch name rest

abbrev pub is_object : Typed → Bool
is_object object = true
is_object text = false
is_object number = false
is_object boolean = false

-- `makeTask`
unfoldable pub make_task : (Units → Bool) → List (Units × Typed) → Made
unfolding switch
make_task validate_verb [] = bad_instruction
make_task validate_verb ((name, data_type) ∷ []) =
    if is_object data_type
    then if validate_verb name then switch name cases else invalid_data
    else bad_instruction
make_task validate_verb (_ ∷ _ ∷ _) = bad_instruction
