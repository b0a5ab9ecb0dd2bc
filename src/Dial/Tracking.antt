-- ===== src/Dial/Tracking.antt =====
-- That a dial of lib/tasks/dial.js can still kill the legs that are not gone.
use jambonz_feature_server.Prelude.{
  ℕ, zero, suc, ◌≡◌, refl, ap, ◌∙◌, sym, Bool, true, false, ◌||◌, Option, none, some, List, [], ◌∷◌,
  ◌++◌, ◌==◌, if◌then◌else◌, arith, get_elem?, take, drop, Option-cases, inl, inr,
}
use jambonz_feature_server.Dial.{
  Follow, connects, rings_out, kills, Loop, Dial, mem, delete, kill_sd, stop_timers, end_kill,
  follow_loop, kill_legs, kill_outdials, outdial_killed, kill,
}

pub mem-delete :
    (a b : ℕ) (bs : List ℕ) → mem b (delete a bs) ≡ (if a == b then false else mem b bs)
unfolding mem delete
mem-delete a b [] = ground arith
mem-delete a b (c ∷ bs) = ground (arith, mem-delete a b bs)

pub mem_of-delete : (a b : ℕ) (bs : List ℕ) → mem b (delete a bs) ≡ true → mem b bs ≡ true
mem_of-delete a b bs h = ground (arith, mem-delete a b bs)

abbrev pub is_sd : ℕ → Option ℕ → Bool
is_sd s none = false
is_sd s (some t) = s == t

-- A leg that is not gone is one that is dialled or chosen.
abbrev pub Known : List ℕ → List ℕ → Option ℕ → Type 0
Known up ds w = (s : ℕ) → mem s up ≡ true → (mem s ds || is_sd s w) ≡ true

-- The legs that are dialled and not gone are among those that a run of `_killOutdials` will kill.
abbrev pub Covers : List ℕ → List ℕ → List ℕ → Type 0
Covers up ds ss = (s : ℕ) → mem s up ≡ true → mem s ds ≡ true → mem s ss ≡ true

unfoldable pub AllCover : List ℕ → List ℕ → List Loop → Type 0
AllCover up ds [] = Unit
AllCover up ds (l ∷ ls) = Covers up ds l.rest × AllCover up ds ls

abbrev pub IsTracked : Dial → Type 0
IsTracked d = Known d.live d.dials d.sd × AllCover d.live d.dials d.loops

-- Fewer legs.
abbrev Within : List ℕ → List ℕ → Type 0
Within xs ys = (s : ℕ) → mem s xs ≡ true → mem s ys ≡ true

pub shrink-AllCover :
    (up up' ds ds' : List ℕ) (ls : List Loop)
    → Within up' up
    → Within ds' ds
    → AllCover up ds ls
    → AllCover up' ds' ls
unfolding AllCover
shrink-AllCover up up' ds ds' [] u d h = tt
shrink-AllCover up up' ds ds' (l ∷ ls) u d h =
    (λ s m n. h.0 s (u s m) (d s n), shrink-AllCover up up' ds ds' ls u d h.1)

append-AllCover :
    (up ds : List ℕ) (ls ks : List Loop)
    → AllCover up ds ls
    → AllCover up ds ks
    → AllCover up ds (ls ++ ks)
unfolding AllCover
append-AllCover up ds [] ks h g = g
append-AllCover up ds (l ∷ ls) ks h g = (h.0, append-AllCover up ds ls ks h.1 g)

pick-AllCover :
    (up ds : List ℕ) (i : ℕ) (ls : List Loop) (l : Loop)
    → get_elem? ls i ≡ some l
    → AllCover up ds ls
    → Covers up ds l.rest × AllCover up ds (take i ls ++ drop (suc i) ls)
unfolding AllCover
pick-AllCover up ds i [] l q h = cc
pick-AllCover up ds zero (k ∷ ls) l q h =
    let same : k ≡ l = cc in
    ((λ s m n. ap (λ (j : Loop). mem s j.rest) (sym same) ∙ h.0 s m n), h.1)
pick-AllCover up ds (suc i) (k ∷ ls) l q h =
    let rest = pick-AllCover up ds i ls l q h.1 in (rest.0, (h.0, rest.1))

end_kill-IsTracked : (d : Dial) → IsTracked d → IsTracked (end_kill d)
unfolding AllCover
end_kill-IsTracked d h = go d.sd refl
  where
    go : (w : Option ℕ) → d.sd ≡ w → IsTracked (record (kill_sd w d) { task_done = true })
    go none q = h
    go (some t) q = (
      (λ s m. ground (arith, h.0 s, mem-delete t s d.live, ap (is_sd s) q)),
      shrink-AllCover d.live (delete t d.live) d.dials d.dials d.loops
          (λ s m. mem_of-delete t s d.live m) (λ s m. m) h.1,
    )

follow_loop-IsTracked : (f : Follow) (d : Dial) → IsTracked d → IsTracked (follow_loop f d)
unfolding follow_loop
follow_loop-IsTracked connects d h = h
follow_loop-IsTracked rings_out d h = end_kill-IsTracked (stop_timers d) h
follow_loop-IsTracked kills d h = end_kill-IsTracked d h

pub kill_legs-IsTracked :
    (f : Follow) (ss : List ℕ) (d : Dial)
    → Covers d.live d.dials ss
    → IsTracked d
    → IsTracked (kill_legs f ss d)
unfolding kill_legs AllCover mem
kill_legs-IsTracked f [] d c h =
    follow_loop-IsTracked f (record d { dials = [] })
      (
        (λ s m. ground (arith, h.0 s, c s)),
        shrink-AllCover d.live d.live d.dials [] d.loops (λ s m. m) (λ s m. cc) h.1,
      )
kill_legs-IsTracked f (x ∷ xs) d c h = (
  (λ s m. h.0 s (mem_of-delete x s d.live m)),
  append-AllCover (delete x d.live) d.dials d.loops _
      (shrink-AllCover d.live (delete x d.live) d.dials d.dials d.loops
        (λ s m. mem_of-delete x s d.live m) (λ s m. m) h.1)
      ((λ s m n. ground (arith, c s, mem-delete x s d.live)), tt),
)

pub kill_outdials-IsTracked : (f : Follow) (d : Dial) → IsTracked d → IsTracked (kill_outdials f d)
unfolding kill_outdials
kill_outdials-IsTracked f d h = kill_legs-IsTracked f d.dials d (λ s m n. n) h

pub kill-IsTracked : (d : Dial) → IsTracked d → IsTracked (kill d)
unfolding kill
kill-IsTracked d h = kill_outdials-IsTracked kills (stop_timers d) h

pub outdial_killed-IsTracked : (i : ℕ) (d : Dial) → IsTracked d → IsTracked (outdial_killed i d)
unfolding outdial_killed
outdial_killed-IsTracked i d h = elim (Option-cases (get_elem? d.loops i)) [
  | inl missing ↦ rw (missing, outdial_killed) h
  | inr (l, found) ↦
      let picked = pick-AllCover d.live d.dials i d.loops l found h.1 in
      rw (found, outdial_killed)
        (kill_legs-IsTracked l.follow l.rest
          (record d {
            loops = take i d.loops ++ drop (suc i) d.loops;
            heard = delete l.leg d.heard;
          })
          picked.0 (h.0, picked.1))
]
