-- ===== src/Dial/Legs.antt =====
-- That the events of a dial of lib/tasks/dial.js keep its legs tracked, while one leg at most is accepted.
use jambonz_feature_server.Prelude.{
  ℕ, ◌≡◌, refl, Bool, true, false, not, ◌&&◌, ◌||◌, Option, none, some, List, [], ◌∷◌, ◌++◌, ◌==◌,
  if◌then◌else◌, arith, if-cases, Bool-cases, inl, inr,
}
use jambonz_feature_server.Dial.{
  Settings, Status, trying, ringing, early_media, in_progress, completed, failed, busy, no_answer,
  connects, Loop, Dial, mem, delete, is_empty, is_none, place, lose, end_if_last, is_kept,
  record_status, after_status, ends_leg, on_call_status_change, on_leg_failed, accept_failed, watch,
  select_single_dial, awaits_answer, on_accept,
}
use jambonz_feature_server.Dial.Tracking.{
  mem-delete, mem_of-delete, is_sd, AllCover, IsTracked, shrink-AllCover, kill_outdials-IsTracked,
  kill-IsTracked,
}

-- No run of `_killOutdials` is under way.
abbrev pub no_loop : List Loop → Bool
no_loop [] = true
no_loop (_ ∷ _) = false

mem-append : (b a : ℕ) (bs : List ℕ) → mem b (bs ++ a ∷ []) ≡ (mem b bs || a == b)
unfolding mem
mem-append b a [] = ground arith
mem-append b a (c ∷ bs) = ground (arith, mem-append b a bs)

end_if_last-IsTracked : (d : Dial) → IsTracked d → IsTracked (end_if_last d)
end_if_last-IsTracked d h =
    if-cases IsTracked (is_empty d.dials && is_none d.sd) _ _ (λ _. kill-IsTracked d h) (λ _. h)

pub lose-IsTracked : (s : ℕ) (d : Dial) → IsTracked d → IsTracked (lose s d)
lose-IsTracked s d h = (
  λ t m. h.0 t (mem_of-delete s t d.live m),
  shrink-AllCover d.live (delete s d.live) d.dials d.dials d.loops
      (λ t m. mem_of-delete s t d.live m) (λ t m. m) h.1,
)

-- The call sid of a leg that is gone leaves the map.
drop-IsTracked :
    (s : ℕ) (d : Dial)
    → IsTracked d
    → mem s d.live ≡ false
    → IsTracked (record d { dials = delete s d.dials })
drop-IsTracked s d h gone = (
  λ t m. ground (arith, h.0 t, mem-delete s t d.dials, apart t m),
  shrink-AllCover d.live d.live d.dials (delete s d.dials) d.loops (λ t m. m)
      (λ t m. mem_of-delete s t d.dials m) h.1,
)
  where
    apart : (t : ℕ) → mem t d.live ≡ true → (s == t) ≡ false
    apart t m = elim (Bool-cases (s == t)) [
      | inl e ↦ let same : s ≡ t = ground arith in cc
      | inr n ↦ n
    ]

gone-IsTracked :
    (s : ℕ) (d : Dial)
    → IsTracked d
    → IsTracked (record d { dials = delete s d.dials; live = delete s d.live })
gone-IsTracked s d h =
    drop-IsTracked s (lose s d) (lose-IsTracked s d h) (ground (arith, mem-delete s s d.live))

pub on_leg_failed-IsTracked : (s : ℕ) (d : Dial) → IsTracked d → IsTracked (on_leg_failed s d)
unfolding on_leg_failed
on_leg_failed-IsTracked s d h =
    end_if_last-IsTracked
      (record d {
        timer_ring = false;
        dials = delete s d.dials;
        heard = delete s d.heard;
        live = delete s d.live;
      })
      (gone-IsTracked s d h)

after_status-IsTracked :
    (o : Settings) (s : ℕ) (status : Status) (d : Dial)
    → IsTracked d
    → (ends_leg status ≡ true → mem s d.live ≡ false)
    → IsTracked (after_status o s status d)
after_status-IsTracked o s trying d h gone = h
after_status-IsTracked o s ringing d h gone = h
after_status-IsTracked o s early_media d h gone =
    if-cases IsTracked o.bridges_early_media _ _ (λ _. h) (λ _. h)
after_status-IsTracked o s in_progress d h gone = h
after_status-IsTracked o s completed d h gone = h
after_status-IsTracked o s failed d h gone =
    end_if_last-IsTracked (record d { dials = delete s d.dials }) (drop-IsTracked s d h (gone refl))
after_status-IsTracked o s busy d h gone =
    end_if_last-IsTracked (record d { dials = delete s d.dials }) (drop-IsTracked s d h (gone refl))
after_status-IsTracked o s no_answer d h gone =
    end_if_last-IsTracked (record d { dials = delete s d.dials }) (drop-IsTracked s d h (gone refl))

pub on_call_status_change-IsTracked :
    (o : Settings) (s : ℕ) (status : Status) (sip : ℕ) (info : Bool) (d : Dial)
    → IsTracked d
    → IsTracked (on_call_status_change o s status sip info d)
unfolding on_call_status_change
on_call_status_change-IsTracked o s status sip info d h =
    let left : Dial = if ends_leg status then lose s d else d in
    let l : IsTracked left =
      if-cases IsTracked (ends_leg status) _ _ (λ _. lose-IsTracked s d h) (λ _. h) in
    let told : Dial = record_status s status sip left in
    let t : IsTracked told =
      if-cases IsTracked (is_kept left.results.dial_call_status) _ _ (λ _. l) (λ _. l) in
    if-cases IsTracked (is_kept d.results.dial_call_status || info) (after_status o s status told)
      left (λ _. after_status-IsTracked o s status told t gone) (λ _. l)
  where
    gone :
        ends_leg status ≡ true
        → mem s (record_status s status sip (if ends_leg status then lose s d else d)).live ≡ false
    gone e = rw e (
        if-cases (λ (k : Dial). mem s k.live ≡ false) (is_kept d.results.dial_call_status) _ _
          (λ _. ground (arith, mem-delete s s d.live)) (λ _. ground (arith, mem-delete s s d.live)))

watch-IsTracked : (s : ℕ) (w : Option ℕ) (d : Dial) → IsTracked d → IsTracked (watch s w d)
unfolding accept_failed
watch-IsTracked s none d h = kill-IsTracked (record d { heard = delete s d.heard }) h
watch-IsTracked s (some t) d h =
    kill_outdials-IsTracked connects
      (record d {
        watched = d.watched ++ t ∷ [];
        results = record {
          dial_call_status = some completed;
          dial_sip_status = 200;
          dial_call_sid = some s;
        };
      })
      h

pub select_single_dial-IsTracked :
    (o : Settings) (s : ℕ) (d : Dial) → IsTracked d → IsTracked (select_single_dial o s d)
unfolding select_single_dial
select_single_dial-IsTracked o s d h =
    if-cases (λ (t : Dial). IsTracked (watch s d.sd t)) o.has_time_limit _ _
      (λ _. watch-IsTracked s d.sd (record d { timer_max_call_duration = true }) h)
      (λ _. watch-IsTracked s d.sd d h)

pub on_accept-IsTracked :
    (o : Settings) (s : ℕ) (d : Dial)
    → is_none d.sd ≡ true
    → IsTracked d
    → IsTracked (on_accept o s d)
unfolding on_accept
on_accept-IsTracked o s d free h =
    let chosen : Dial = record d {
      timer_ring = false;
      bridged = d.bridged || not o.can_release_media;
      dials = delete s d.dials;
      sd = some s;
    } in
    let t : IsTracked chosen = (
      λ t m. none_chosen d.sd t (h.0 t m) free,
      shrink-AllCover d.live d.live d.dials (delete s d.dials) d.loops (λ t m. m)
          (λ t m. mem_of-delete s t d.dials m) h.1,
    ) in
    if-cases IsTracked (awaits_answer o) (record chosen { connecting = d.connecting ++ s ∷ [] })
      (select_single_dial o s chosen) (λ _. t) (λ _. select_single_dial-IsTracked o s chosen t)
  where
    none_chosen :
        (w : Option ℕ) (t : ℕ)
        → (mem t d.dials || is_sd t w) ≡ true
        → is_none w ≡ true
        → (mem t (delete s d.dials) || t == s) ≡ true
    none_chosen none t k f = ground (arith, mem-delete s t d.dials)
    none_chosen (some u) t k f = cc

no_loop-AllCover : (up ds : List ℕ) (ls : List Loop) → no_loop ls ≡ true → AllCover up ds ls
unfolding AllCover
no_loop-AllCover up ds [] e = tt
no_loop-AllCover up ds (l ∷ ls) e = cc

pub place-IsTracked :
    (s : ℕ) (d : Dial) → no_loop d.loops ≡ true → IsTracked d → IsTracked (place s d)
unfolding place
place-IsTracked s d e h =
    if-cases IsTracked d.killed _ _ (λ _. h)
      (λ _. (
        λ t m. ground (arith, h.0 t, mem-append t s d.live, mem-append t s d.dials),
        no_loop-AllCover (d.live ++ s ∷ []) (d.dials ++ s ∷ []) d.loops e,
      ))
