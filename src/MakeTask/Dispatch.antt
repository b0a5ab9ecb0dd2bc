-- ===== src/MakeTask/Dispatch.antt =====
-- Which class a verb leads to: lib/tasks/make_task.js.
use jambonz_feature_server.Prelude.{Bool, true, [], ◌∷◌, ◌≡◌, refl, String, Units, units}
use jambonz_feature_server.MakeTask.{
  object, TaskClass, task, switch, make_task, cases, answer, sip_decline, sip_request, sip_refer,
  config, conference, dial, dialogflow, dequeue, dtmf, dub, enqueue, hangup, leave, lex, message,
  llm, rasa, say, play, pause, gather, transcribe, listen, redirect, rest_dial, tag, alert,
}

-- A verb of each class.
abbrev pub verb_of : TaskClass → String
verb_of answer = "answer"
verb_of sip_decline = "sip:decline"
verb_of sip_request = "sip:request"
verb_of sip_refer = "sip:refer"
verb_of config = "config"
verb_of conference = "conference"
verb_of dial = "dial"
verb_of dialogflow = "dialogflow"
verb_of dequeue = "dequeue"
verb_of dtmf = "dtmf"
verb_of dub = "dub"
verb_of enqueue = "enqueue"
verb_of hangup = "hangup"
verb_of leave = "leave"
verb_of lex = "lex"
verb_of message = "message"
verb_of llm = "llm"
verb_of rasa = "rasa"
verb_of say = "say"
verb_of play = "play"
verb_of pause = "pause"
verb_of gather = "gather"
verb_of transcribe = "transcribe"
verb_of listen = "listen"
verb_of redirect = "redirect"
verb_of rest_dial = "rest:dial"
verb_of tag = "tag"
verb_of alert = "alert"

switch_reaches : (c : TaskClass) → switch (units (verb_of c)) cases ≡ task c
unfolding switch
switch_reaches answer = refl
switch_reaches sip_decline = refl
switch_reaches sip_request = refl
switch_reaches sip_refer = refl
switch_reaches config = refl
switch_reaches conference = refl
switch_reaches dial = refl
switch_reaches dialogflow = refl
switch_reaches dequeue = refl
switch_reaches dtmf = refl
switch_reaches dub = refl
switch_reaches enqueue = refl
switch_reaches hangup = refl
switch_reaches leave = refl
switch_reaches lex = refl
switch_reaches message = refl
switch_reaches llm = refl
switch_reaches rasa = refl
switch_reaches say = refl
switch_reaches play = refl
switch_reaches pause = refl
switch_reaches gather = refl
switch_reaches transcribe = refl
switch_reaches listen = refl
switch_reaches redirect = refl
switch_reaches rest_dial = refl
switch_reaches tag = refl
switch_reaches alert = refl

-- For each class there is a verb that, where `validateVerb` accepts it and its value is an object,
-- `makeTask` makes a task of that class of.
pub make_task_reaches :
    (valid : Units → Bool) (c : TaskClass)
    → valid (units (verb_of c)) ≡ true
    → make_task valid ((units (verb_of c), object) ∷ []) ≡ task c
unfolding make_task
make_task_reaches valid c h = rw h (switch_reaches c)
