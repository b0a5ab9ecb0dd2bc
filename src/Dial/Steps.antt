-- ===== src/Dial/Steps.antt =====
-- An accept of lib/tasks/dial.js, and a run of `_killOutdials` that goes on.
use jambonz_feature_server.Prelude.{
  ℕ, ◌≡◌, refl, ap, ◌∙◌, Bool, true, false, not, ◌||◌, Option, none, some, List, [], ◌∷◌, ◌++◌,
  if-cases, get_elem?, take, drop,
}
use jambonz_feature_server.Dial.{
  Settings, completed, Dial, Loop, mem, delete, connects, follow_loop, kill_legs, kill_outdials,
  continue_loop, outdial_killed, select_single_dial, watch, awaits_answer, on_accept,
}
use jambonz_feature_server.Dial.Race.{accepts, kill_ends, is_heard, step}

-- A run of `_killOutdials` for an accept.
abbrev pub killing : ℕ → List ℕ → Loop
killing s ss = record { leg = s; rest = ss; follow = connects }

-- What is dialled, chosen, being killed and up.
abbrev pub At : List ℕ → Option ℕ → List Loop → List ℕ → Dial → Type 0
At ds w ls up k = (k.dials ≡ ds) × (k.sd ≡ w) × (k.loops ≡ ls) × (k.live ≡ up)

pub clash : {t : Bool} → t ≡ true → t ≡ false → ⊥
clash p n = cc

module _ (o : Settings) (now : awaits_answer o ≡ false) where
  pub accept_kills :
      (s x : ℕ) (xs ds hs : List ℕ) (w : Option ℕ) (ls : List Loop) (up : List ℕ) (k : Dial)
      → mem s hs ≡ true
      → delete s ds ≡ x ∷ xs
      → k.heard ≡ hs
      → At ds w ls up k
      → At (x ∷ xs) (some s) (ls ++ killing x xs ∷ []) (delete x up) (step o (accepts s) k)
        × ((step o (accepts s) k).heard ≡ hs)
  unfolding step on_accept select_single_dial kill_outdials kill_legs
  accept_kills s x xs ds hs w ls up k m left h (d, _, l, u) =
      if-cases Killing (is_heard s k) _ _
        (λ _.
          if-cases Killing (awaits_answer o) _ _ (λ t. absurd (clash t now))
            (λ _.
              if-cases (λ (t : Dial). Killing (watch s (some s) t)) o.has_time_limit _ _
                (λ _.
                  started (record chosen { timer_max_call_duration = true })
                    (ap (delete s) d ∙ left) l u h)
                (λ _. started chosen (ap (delete s) d ∙ left) l u h)))
        (λ n. absurd (clash (ap (mem s) h ∙ m) n))
    where
      chosen : Dial
      chosen = record k {
        timer_ring = false;
        bridged = k.bridged || not o.can_release_media;
        dials = delete s k.dials;
      }

      Killing : Dial → Type 0
      Killing r = At (x ∷ xs) (some s) (ls ++ killing x xs ∷ []) (delete x up) r × (r.heard ≡ hs)

      legs :
          (ys : List ℕ) (t : Dial)
          → ys ≡ x ∷ xs
          → t.dials ≡ ys
          → t.sd ≡ some s
          → t.loops ≡ ls
          → t.live ≡ up
          → t.heard ≡ hs
          → Killing (kill_legs connects ys t)
      legs [] t e d w l u h = cc
      legs (y ∷ ys) t e d w l u h =
          let same : y ≡ x = cc in
          let rest : ys ≡ xs = cc in
          ((d ∙ e, w, cc, ap (delete y) u ∙ ap (λ z. delete z up) same), h)

      started :
          (t : Dial)
          → t.dials ≡ x ∷ xs
          → t.loops ≡ ls
          → t.live ≡ up
          → t.heard ≡ hs
          → Killing (watch s (some s) (record t { sd = some s }))
      started t d l u h =
          legs t.dials
            (record t {
              sd = some s;
              watched = t.watched ++ s ∷ [];
              results = record {
                dial_call_status = some completed;
                dial_sip_status = 200;
                dial_call_sid = some s;
              };
            })
            d refl refl l u h

  pub next_leg :
      (x y : ℕ) (ys ds : List ℕ) (w : Option ℕ) (ls : List Loop) (up : List ℕ) (k : Dial)
      → At ds w (killing x (y ∷ ys) ∷ ls) up k
      → At ds w (ls ++ killing y ys ∷ []) (delete y up) (step o (kill_ends 0) k)
  unfolding step outdial_killed kill_legs
  next_leg x y ys ds w ls up k (d, e, l, u) = first k.loops l
    where
      first :
          (ms : List Loop)
          → ms ≡ killing x (y ∷ ys) ∷ ls
          → At ds w (ls ++ killing y ys ∷ []) (delete y up) (elim (get_elem? ms 0) [
            | none ↦ k
            | some m ↦ continue_loop m (record k { loops = take 0 ms ++ drop 1 ms })
          ])
      first ms q =
          rw q (d, e, ap (λ (z : List Loop). drop 1 z ++ killing y ys ∷ []) q, ap (delete y) u)

  pub last_leg :
      (x : ℕ) (ds : List ℕ) (w : Option ℕ) (ls : List Loop) (up : List ℕ) (k : Dial)
      → At ds w (killing x [] ∷ ls) up k
      → At [] w ls up (step o (kill_ends 0) k)
  unfolding step outdial_killed kill_legs follow_loop
  last_leg x ds w ls up k (d, e, l, u) = first k.loops l
    where
      first :
          (ms : List Loop)
          → ms ≡ killing x [] ∷ ls
          → At [] w ls up (elim (get_elem? ms 0) [
            | none ↦ k
            | some m ↦ continue_loop m (record k { loops = take 0 ms ++ drop 1 ms })
          ])
      first ms q = rw q (refl, e, ap (λ (z : List Loop). drop 1 z) q, u)
