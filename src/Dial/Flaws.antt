-- ===== src/Dial/Flaws.antt =====
-- Two winners of lib/tasks/dial.js.
use jambonz_feature_server.Prelude.{
  ℕ, ◌≡◌, refl, ap, ◌∙◌, Bool, true, false, Option, none, some, List, [], ◌∷◌, ◌++◌, ◌==◌, arith,
  if-cases,
}
use jambonz_feature_server.Dial.{
  Settings, completed, Dial, mem, delete, is_none, kills, connects, kill_sd, follow_loop, kill_legs,
  kill_outdials, stop_timers, kill, select_single_dial, watch, awaits_answer, on_accept,
  answer_propagated,
}
use jambonz_feature_server.Dial.Race.{accepts, propagates, is_killed, is_heard, step, run}

-- Two legs that are dialled, and that nothing else was heard of.
abbrev pub two_legs : ℕ → ℕ → Dial → Dial
two_legs a b d = record d {
  dials = a ∷ b ∷ [];
  heard = a ∷ b ∷ [];
  live = a ∷ b ∷ [];
  sd = none;
  connecting = [];
}

module _ (o : Settings) (a b : ℕ) (waits : awaits_answer o ≡ true) (differ : (a == b) ≡ false)
    (differ' : (b == a) ≡ false) where
  -- What is dialled, chosen and awaited, with both legs up.
  At : List ℕ → Option ℕ → List ℕ → Dial → Type 0
  At dials sd connecting k =
      (k.dials ≡ dials)
      × (k.sd ≡ sd)
      × (k.connecting ≡ connecting)
      × (k.heard ≡ a ∷ b ∷ [])
      × (k.live ≡ a ∷ b ∷ [])

  mem_a : mem a (a ∷ b ∷ []) ≡ true
  unfolding mem
  mem_a = ground arith

  mem_b : mem b (a ∷ b ∷ []) ≡ true
  unfolding mem
  mem_b = ground arith

  mem_b_alone : mem b (b ∷ []) ≡ true
  unfolding mem
  mem_b_alone = ground arith

  delete_a : delete a (a ∷ b ∷ []) ≡ b ∷ []
  unfolding delete
  delete_a = ground (arith, differ')

  delete_b : delete b (b ∷ []) ≡ []
  unfolding delete
  delete_b = ground arith

  clash : {t : Bool} → t ≡ true → t ≡ false → ⊥
  clash p n = cc

  accepted :
      (s : ℕ) (dials : List ℕ) (sd : Option ℕ) (connecting : List ℕ) (k : Dial)
      → mem s (a ∷ b ∷ []) ≡ true
      → At dials sd connecting k
      → At (delete s dials) (some s) (connecting ++ s ∷ []) (step o (accepts s) k)
  unfolding step on_accept At
  accepted s dials sd connecting k m (d, _, c, h, l) =
      if-cases (At (delete s dials) (some s) (connecting ++ s ∷ [])) (is_heard s k) _ _
        (λ _.
          if-cases (At (delete s dials) (some s) (connecting ++ s ∷ [])) (awaits_answer o) _ _
            (λ _. (ap (delete s) d, refl, ap (λ x. x ++ s ∷ []) c, h, l))
            (λ n. absurd (clash waits n)))
        (λ n. absurd (clash (ap (mem s) h ∙ m) n))

  propagated :
      (s : ℕ) (connecting : List ℕ) (k : Dial)
      → mem s connecting ≡ true
      → At [] (some b) connecting k
      → At [] (some b) (delete s connecting) (step o (propagates s true) k)
  unfolding step answer_propagated select_single_dial kill_outdials kill_legs follow_loop At
  propagated s connecting k m (d, e, c, h, l) =
      if-cases (At [] (some b) (delete s connecting)) (mem s k.connecting) _ _
        (λ _.
          if-cases (λ (t : Dial). At [] (some b) (delete s connecting) (watch s k.sd t))
            o.has_time_limit _ _
            (λ _.
              kept k.sd e (record left { timer_max_call_duration = true })
                (d, e, ap (delete s) c, h, l))
            (λ _. kept k.sd e left (d, e, ap (delete s) c, h, l)))
        (λ n. absurd (clash (ap (mem s) c ∙ m) n))
    where
      left : Dial
      left = record k { connecting = delete s k.connecting }

      ended :
          (ds : List ℕ) (t : Dial)
          → ds ≡ []
          → At [] (some b) (delete s connecting) (record t { dials = [] })
          → At [] (some b) (delete s connecting) (kill_legs connects ds t)
      ended [] t q h = h
      ended (x ∷ xs) t q h = cc

      kept :
          (w : Option ℕ)
          → w ≡ some b
          → (t : Dial) → At [] (some b) (delete s connecting) t
          → At [] (some b) (delete s connecting) (watch s w t)
      kept none q t h = cc
      kept (some u) q t (d, e, c, h, l) =
          ended t.dials
            (record t {
              watched = t.watched ++ u ∷ [];
              results = record {
                dial_call_status = some completed;
                dial_sip_status = 200;
                dial_call_sid = some s;
              };
            })
            d (refl, e, c, h, l)

  Stranded : Dial → Type 0
  Stranded k = (mem a k.live ≡ true) × (is_none k.sd ≡ true) × (k.dials ≡ []) × (k.task_done ≡ true)

  killed_leaves : (c : List ℕ) (k : Dial) → At [] (some b) c k → Stranded (kill k)
  unfolding kill kill_outdials kill_legs follow_loop At mem delete Stranded
  killed_leaves c k (d, e, _, _, l) = none_dialled k.dials d
    where
      ended :
          (w : Option ℕ)
          → w ≡ some b
          → Stranded
              (record (kill_sd w (record (stop_timers k) { dials = [] })) { task_done = true })
      ended none q = cc
      ended (some u) q = (
        ap (λ x. mem a (delete x k.live)) same ∙ ap (λ x. mem a (delete b x)) l ∙ still,
        refl,
        refl,
        refl,
      )
        where
          same : u ≡ b
          same = cc

          still : mem a (delete b (a ∷ b ∷ [])) ≡ true
          still = ground (arith, differ)

      none_dialled : (ds : List ℕ) → ds ≡ [] → Stranded (kill_legs kills ds (stop_timers k))
      none_dialled [] q = ended k.sd e
      none_dialled (x ∷ xs) q = cc

  -- Where the dial waits for the answer of its A leg and two different legs are dialled, let both
  -- be accepted before the answer is propagated for either, and the task be killed after. Then the
  -- task is done with no leg chosen or dialled, and the first leg is still up.
  pub second_winner_strands :
      (d : Dial)
      → let ended =
          run o
            (accepts a ∷ accepts b ∷ propagates a true ∷ propagates b true ∷ is_killed ∷ [])
            (two_legs a b d) in
        (mem a ended.live ≡ true)
        × (is_none ended.sd ≡ true)
        × (ended.dials ≡ [])
        × (ended.task_done ≡ true)
  unfolding run At Stranded
  second_winner_strands d =
      let k : Dial = two_legs a b d in
      let k1 : Dial = step o (accepts a) k in
      let k2 : Dial = step o (accepts b) k1 in
      let k3 : Dial = step o (propagates a true) k2 in
      let one : At (delete a (a ∷ b ∷ [])) (some a) (a ∷ []) k1 =
        accepted a (a ∷ b ∷ []) none [] k mem_a (refl, refl, refl, refl, refl) in
      let two : At (delete b (delete a (a ∷ b ∷ []))) (some b) (a ∷ b ∷ []) k2 =
        accepted b (delete a (a ∷ b ∷ [])) (some a) (a ∷ []) k1 mem_b one in
      let dialled : At [] (some b) (a ∷ b ∷ []) k2 =
        (two.0 ∙ ap (delete b) delete_a ∙ delete_b, two.1, two.2, two.3, two.4) in
      let three : At [] (some b) (delete a (a ∷ b ∷ [])) k3 =
        propagated a (a ∷ b ∷ []) k2 mem_a dialled in
      let four =
        propagated b (delete a (a ∷ b ∷ [])) k3 (ap (mem b) delete_a ∙ mem_b_alone) three in
      killed_leaves (delete b (delete a (a ∷ b ∷ []))) (step o (propagates b true) k3) four
