-- ===== src/Session/Counting.antt =====
-- How often a task occurs in the lists of lib/session/call-session.js.
use Prim.Native.String.{String}
use text.Mathlib.Text.{◌==◌}
use jambonz_feature_server.Prelude.{
  ℕ, ◌+◌, ◌≤◌, ◌≡◌, Bool, true, false, ◌&&◌, Option, none, some, List, [], ◌∷◌, ◌++◌, if◌then◌else◌,
  if-cases, arith, ◌==◌ as nat_eq,
}
use jambonz_feature_server.Session.{
  Task, Kind, normal, siprec, confirm, prune, permitted, some_tasks, clear_to_config, is_gather,
  splice, allowed_siprec_verbs, allowed_confirm_session_verbs, includes,
}

-- How often a list has a task of an id.
abbrev pub one_if : Bool → ℕ
one_if true = 1
one_if false = 0

unfoldable pub times : ℕ → List Task → ℕ
times id [] = 0
times id (t ∷ ts) = one_if (nat_eq t.id id) + times id ts

pub times-append : (id : ℕ) (xs ys : List Task) → times id (xs ++ ys) ≡ times id xs + times id ys
unfolding times
times-append id [] ys = omega arith
times-append id (x ∷ xs) ys = omega (arith, times-append id xs ys)

module _ (id : ℕ) where
  pub prune-times : (names : List String) (ts : List Task) → times id (prune names ts) ≤ times id ts
  unfolding prune times
  prune-times names [] = omega arith
  prune-times names (t ∷ ts) =
      if-cases (λ r. times id r ≤ one_if (nat_eq t.id id) + times id ts) (includes t.name names) _ _
        (λ _. omega (arith, prune-times names ts)) (λ _. omega (arith, prune-times names ts))

  abbrev pub times_of : Option (List Task) → ℕ
  times_of none = 0
  times_of (some ts) = times id ts

  pub some_tasks-times : (ts : List Task) → times_of (some_tasks ts) ≤ times id ts
  some_tasks-times [] = omega arith
  some_tasks-times (t ∷ ts) = omega arith

  pub permitted-times : (k : Kind) (ts : List Task) → times_of (permitted k ts) ≤ times id ts
  unfolding permitted
  permitted-times normal ts = omega arith
  permitted-times siprec ts =
      omega (
        arith,
        some_tasks-times (prune allowed_siprec_verbs ts),
        prune-times allowed_siprec_verbs ts,
      )
  permitted-times confirm ts = omega (
    arith,
    some_tasks-times (prune allowed_confirm_session_verbs ts),
    prune-times allowed_confirm_session_verbs ts,
  )

  pub clear_to_config-times : (ts : List Task) → times id (clear_to_config ts) ≤ times id ts
  unfolding clear_to_config times
  clear_to_config-times [] = omega arith
  clear_to_config-times (t ∷ ts) =
      if-cases (λ r. times id r ≤ one_if (nat_eq t.id id) + times id ts)
        ((t.name == "config") && t.disables_barge_in) _ _ (λ _. omega arith)
        (λ _. omega (arith, clear_to_config-times ts))

  pub splice-times :
      (drops : Bool) (new ts : List Task)
      → times id (splice drops new ts) ≤ times id new + times id ts
  unfolding splice times
  splice-times drops new [] = omega arith
  splice-times drops new (t ∷ ts) =
      if-cases (λ r. times id r ≤ times id new + (one_if (nat_eq t.id id) + times id ts))
        (is_gather t) _ _ (λ _. here drops) (λ _. omega (arith, splice-times drops new ts))
    where
      here :
          (b : Bool)
          → times id (new ++ (if b then ts else t ∷ ts))
            ≤ times id new + (one_if (nat_eq t.id id) + times id ts)
      here true = omega (arith, times-append id new ts)
      here false = omega (arith, times-append id new (t ∷ ts))
