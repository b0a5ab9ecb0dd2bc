-- ===== src/Dial/Draining.antt =====
-- What the kills of the legs of lib/tasks/dial.js come to.
use jambonz_feature_server.Prelude.{
  ℕ, zero, suc, ◌+◌, ◌≤◌, ◌≡◌, refl, ap, Bool, true, false, ◌&&◌, ◌||◌, Option, none, some, List,
  [], ◌∷◌, ◌++◌, arith, length, get_elem?, take, drop,
}
use jambonz_feature_server.Dial.{
  Settings, Follow, connects, rings_out, kills, Loop, Dial, mem, delete, is_empty, is_none, create,
  kill_sd, stop_timers, end_kill, follow_loop, kill_legs, kill_outdials, continue_loop,
  outdial_killed, kill,
}
use jambonz_feature_server.Dial.Race.{Op, kill_ends, step, run}
use jambonz_feature_server.Dial.Tracking.{
  is_sd, IsTracked, kill-IsTracked, outdial_killed-IsTracked,
}
use jambonz_feature_server.Dial.Orderly.{all_orderly, run-IsTracked, create-IsTracked}

-- How many kills of legs are still to come to their end.
unfoldable pub kills_left : List Loop → ℕ
kills_left [] = 0
kills_left (l ∷ ls) = suc (length l.rest) + kills_left ls

kills_left-append :
    (ls : List Loop) (l : Loop) → kills_left (ls ++ l ∷ []) ≡ kills_left ls + suc (length l.rest)
unfolding kills_left
kills_left-append [] l = omega arith
kills_left-append (k ∷ ls) l = omega (arith, kills_left-append ls l)

abbrev is_kill : Follow → Bool
is_kill kills = true
is_kill connects = false
is_kill rings_out = false

-- A run of `_killOutdials` for a `kill` is under way.
unfoldable has_kill : List Loop → Bool
has_kill [] = false
has_kill (l ∷ ls) = is_kill l.follow || has_kill ls

has_kill-append :
    (ls : List Loop) (l : Loop) → has_kill (ls ++ l ∷ []) ≡ (has_kill ls || is_kill l.follow)
unfolding has_kill
has_kill-append [] l = ground arith
has_kill-append (k ∷ ls) l = ground (arith, has_kill-append ls l)

-- What a kill leads to: no leg is dialled or chosen, at the end of its run at the latest.
abbrev IsEnding : Dial → Type 0
IsEnding d = (has_kill d.loops || is_empty d.dials && is_none d.sd) ≡ true

end_kill-IsEnding : (d : Dial) → d.dials ≡ [] → IsEnding (end_kill d)
end_kill-IsEnding d e = go d.sd refl
  where
    go : (w : Option ℕ) → d.sd ≡ w → IsEnding (record (kill_sd w d) { task_done = true })
    go none q = ground (arith, ap is_empty e, ap is_none q)
    go (some t) q = ground (arith, ap is_empty e)

kill_legs-IsEnding :
    (f : Follow) (ss : List ℕ) (d : Dial)
    → (is_kill f || (has_kill d.loops || is_empty d.dials && is_none d.sd)) ≡ true
    → IsEnding (kill_legs f ss d)
unfolding kill_legs follow_loop
kill_legs-IsEnding connects [] d h = ground arith
kill_legs-IsEnding rings_out [] d h = end_kill-IsEnding (stop_timers (record d { dials = [] })) refl
kill_legs-IsEnding kills [] d h = end_kill-IsEnding (record d { dials = [] }) refl
kill_legs-IsEnding f (x ∷ xs) d h =
    ground (arith, has_kill-append d.loops (record { leg = x; rest = xs; follow = f }))

-- The end of the first kill of a leg, with the runs of `_killOutdials` under way.
abbrev outdial_at : List Loop → Dial → Dial
outdial_at ks d = elim (get_elem? ks 0) [
  | none ↦ d
  | some k ↦ continue_loop k (record d { loops = take 0 ks ++ drop 1 ks })
]

first_ends :
    (d : Dial) (l : Loop) (ls : List Loop)
    → d.loops ≡ l ∷ ls
    → outdial_killed 0 d ≡ continue_loop l (record d { loops = ls })
unfolding outdial_killed
first_ends d l ls e = go d.loops e
  where
    go :
        (ks : List Loop) → ks ≡ l ∷ ls → outdial_at ks d ≡ continue_loop l (record d { loops = ls })
    go ks q = ap (λ z. outdial_at z d) q

end_kill_loops : (d : Dial) (w : Option ℕ) → (kill_sd w d).loops ≡ d.loops
end_kill_loops d none = refl
end_kill_loops d (some t) = refl

kills_left-continue :
    (f : Follow) (ss : List ℕ) (d : Dial)
    → kills_left (kill_legs f ss d).loops ≡ kills_left d.loops + length ss
unfolding kill_legs follow_loop
kills_left-continue connects [] d = omega arith
kills_left-continue rings_out [] d =
    omega (arith, ap kills_left (end_kill_loops (stop_timers (record d { dials = [] })) d.sd))
kills_left-continue kills [] d =
    omega (arith, ap kills_left (end_kill_loops (record d { dials = [] }) d.sd))
kills_left-continue f (x ∷ xs) d =
    omega (arith, kills_left-append d.loops (record { leg = x; rest = xs; follow = f }))

-- So many ends of the first kill that is awaited.
unfoldable pub ends_of : ℕ → List Op
ends_of zero = []
ends_of (suc n) = kill_ends 0 ∷ ends_of n

none_up :
    (d : Dial) (s : ℕ)
    → IsTracked d
    → (is_empty d.dials && is_none d.sd) ≡ true
    → mem s d.live ≡ false
unfolding mem
none_up d s h e = go d.dials d.sd (h.0 s) e
  where
    go :
        (ds : List ℕ) (w : Option ℕ)
        → (mem s d.live ≡ true → (mem s ds || is_sd s w) ≡ true)
        → (is_empty ds && is_none w) ≡ true
        → mem s d.live ≡ false
    go [] none k e = ground arith
    go [] (some t) k e = cc
    go (x ∷ xs) w k e = cc

none_awaited : (d : Dial) (ls : List Loop) → ls ≡ [] → outdial_at ls d ≡ d
none_awaited d [] q = refl
none_awaited d (l ∷ ls) q = cc

one_less :
    (n : ℕ) (d : Dial) (ls : List Loop)
    → d.loops ≡ ls
    → kills_left ls ≤ suc n
    → IsEnding d
    → kills_left (outdial_killed 0 d).loops ≤ n × IsEnding (outdial_killed 0 d)
unfolding kills_left has_kill outdial_killed
one_less n d [] q b e =
    let same = none_awaited d d.loops q in (rw same (rw q (omega arith)), rw same e)
one_less n d (l ∷ ls) q b e = rw (first_ends d l ls q) (
  omega (
    arith,
    kills_left-continue l.follow l.rest (record d { loops = ls; heard = delete l.leg d.heard }),
  ),
  kill_legs-IsEnding l.follow l.rest (record d { loops = ls; heard = delete l.leg d.heard })
      (ground (arith, e, ap has_kill q)),
)

no_kill_left : (ls : List Loop) → kills_left ls ≤ 0 → has_kill ls ≡ false
unfolding kills_left has_kill
no_kill_left [] b = refl
no_kill_left (l ∷ ls) b = absurd (omega arith)

module _ (o : Settings) where
  drained :
      (n : ℕ) (d : Dial) (s : ℕ)
      → kills_left d.loops ≤ n
      → IsTracked d
      → IsEnding d
      → mem s (run o (ends_of n) d).live ≡ false
  unfolding run ends_of step
  drained zero d s b h e = none_up d s h (ground (arith, no_kill_left d.loops b))
  drained (suc n) d s b h e =
      let less = one_less n d d.loops refl b e in
      drained n (outdial_killed 0 d) s less.0 (outdial_killed-IsTracked 0 d h) less.1

  -- From a new dial, take any list of events in which no leg is accepted while one is chosen, and
  -- none is placed while others are being killed. Where the task is then killed, and at least as
  -- many kills of legs come to their end as are awaited, no leg is left up.
  pub kill_leaves_no_leg :
      (ops : List Op) (n s : ℕ)
      → all_orderly o ops create ≡ true
      → kills_left (kill (run o ops create)).loops ≤ n
      → mem s (run o (ends_of n) (kill (run o ops create))).live ≡ false
  unfolding kill kill_outdials
  kill_leaves_no_leg ops n s p b =
      let d : Dial = run o ops create in
      let h = run-IsTracked o ops create p create-IsTracked in
      drained n (kill d) s b (kill-IsTracked d h)
        (kill_legs-IsEnding kills d.dials (stop_timers d) refl)
