-- ===== src/Dial/Late.antt =====
-- A winner of lib/tasks/dial.js while the other legs are being killed.
use jambonz_feature_server.Prelude.{
  ℕ, ◌≡◌, refl, ap, ◌∙◌, true, false, Option, none, some, List, [], ◌∷◌, ◌==◌, arith,
}
use jambonz_feature_server.Dial.{
  Settings, Dial, mem, delete, is_none, kills, kill_sd, follow_loop, kill_legs, kill_outdials,
  stop_timers, kill, awaits_answer,
}
use jambonz_feature_server.Dial.Race.{accepts, kill_ends, is_killed, step, run}
use jambonz_feature_server.Dial.Tracking.{mem-delete}
use jambonz_feature_server.Dial.Steps.{killing, At, accept_kills, next_leg, last_leg}

-- Three legs that are dialled, and that nothing else was heard of.
abbrev pub three_legs : ℕ → ℕ → ℕ → Dial → Dial
three_legs a b c d = record d {
  dials = a ∷ b ∷ c ∷ [];
  heard = a ∷ b ∷ c ∷ [];
  live = a ∷ b ∷ c ∷ [];
  sd = none;
  loops = [];
}

mem_first : (a b c : ℕ) → mem a (a ∷ b ∷ c ∷ []) ≡ true
unfolding mem
mem_first a b c = ground arith

mem_third : (a b c : ℕ) → mem c (a ∷ b ∷ c ∷ []) ≡ true
unfolding mem
mem_third a b c = ground arith

delete_first :
    (a b c : ℕ) → (a == b) ≡ false → (a == c) ≡ false → delete a (a ∷ b ∷ c ∷ []) ≡ b ∷ c ∷ []
unfolding delete
delete_first a b c ab ac = ground arith

delete_second : (b c : ℕ) → (b == c) ≡ false → delete c (b ∷ c ∷ []) ≡ b ∷ []
unfolding delete
delete_second b c bc = ground arith

-- The legs that are up once the second and the third were killed, and the third again.
left_up :
    (a b c : ℕ)
    → (a == b) ≡ false
    → (a == c) ≡ false
    → mem a (delete c (delete c (delete b (delete b (a ∷ b ∷ c ∷ []))))) ≡ true
left_up a b c ab ac = ground (
  arith,
  mem-delete c a (delete c (delete b (delete b (a ∷ b ∷ c ∷ [])))),
  mem-delete c a (delete b (delete b (a ∷ b ∷ c ∷ []))),
  mem-delete b a (delete b (a ∷ b ∷ c ∷ [])),
  mem-delete b a (a ∷ b ∷ c ∷ []),
  mem_first a b c,
)

killed_leaves :
    (a c : ℕ) (up : List ℕ) (k : Dial)
    → mem a (delete c up) ≡ true
    → At [] (some c) [] up k
    → (mem a (kill k).live ≡ true)
      × (mem c (kill k).live ≡ false)
      × (is_none (kill k).sd ≡ true)
      × ((kill k).dials ≡ [])
      × ((kill k).task_done ≡ true)
unfolding kill kill_outdials kill_legs follow_loop
killed_leaves a c up k still (d, e, _, u) = none_dialled k.dials d
  where
    Stranded : Dial → Type 0
    Stranded r =
        (mem a r.live ≡ true)
        × (mem c r.live ≡ false)
        × (is_none r.sd ≡ true)
        × (r.dials ≡ [])
        × (r.task_done ≡ true)

    ended :
        (w : Option ℕ)
        → w ≡ some c
        → Stranded (record (kill_sd w (record (stop_timers k) { dials = [] })) { task_done = true })
    ended none q = cc
    ended (some v) q =
        let same : v ≡ c = cc in
        let left : delete v k.live ≡ delete c up =
          ap (λ z. delete z k.live) same ∙ ap (delete c) u in
        (
          ap (mem a) left ∙ still,
          ap (mem c) left ∙ ground (arith, mem-delete c c up),
          refl,
          refl,
          refl,
        )

    none_dialled : (ds : List ℕ) → ds ≡ [] → Stranded (kill_legs kills ds (stop_timers k))
    none_dialled [] q = ended k.sd e
    none_dialled (x ∷ xs) q = cc

module _ (o : Settings) (now : awaits_answer o ≡ false) where
  -- Where the dial need not wait for the answer of its A leg and three different legs are dialled,
  -- let the first be accepted, and the third while the second is being killed; let every kill of a
  -- leg that was started come to its end, and the task be killed after. Then the task is done with
  -- no leg chosen or dialled, the third leg was hung up, and the first is still up.
  pub late_winner_strands :
      (a b c : ℕ) (d : Dial)
      → (a == b) ≡ false
      → (a == c) ≡ false
      → (b == c) ≡ false
      → let ended =
          run o
            (accepts a ∷ accepts c ∷ kill_ends 0 ∷ kill_ends 0 ∷ kill_ends 0 ∷ is_killed ∷ [])
            (three_legs a b c d) in
        (mem a ended.live ≡ true)
        × (mem c ended.live ≡ false)
        × (is_none ended.sd ≡ true)
        × (ended.dials ≡ [])
        × (ended.task_done ≡ true)
  unfolding run
  late_winner_strands a b c d ab ac bc =
      let k : Dial = three_legs a b c d in
      let k1 : Dial = step o (accepts a) k in
      let k2 : Dial = step o (accepts c) k1 in
      let k3 : Dial = step o (kill_ends 0) k2 in
      let k4 : Dial = step o (kill_ends 0) k3 in
      let all : List ℕ = a ∷ b ∷ c ∷ [] in
      let up : List ℕ = delete b (delete b all) in
      let one =
        accept_kills o now a b (c ∷ []) all all none [] all k (mem_first a b c)
          (delete_first a b c ab ac) refl (refl, refl, refl, refl) in
      let two =
        accept_kills o now c b [] (b ∷ c ∷ []) all (some a) (killing b (c ∷ []) ∷ []) (delete b all)
          k1 (mem_third a b c) (delete_second b c bc) one.1 one.0 in
      let three = next_leg o now b c [] (b ∷ []) (some c) (killing b [] ∷ []) up k2 two.0 in
      let four = last_leg o now b (b ∷ []) (some c) (killing c [] ∷ []) (delete c up) k3 three in
      let five = last_leg o now c [] (some c) [] (delete c up) k4 four in
      killed_leaves a c (delete c up) (step o (kill_ends 0) k4) (left_up a b c ab ac) five
