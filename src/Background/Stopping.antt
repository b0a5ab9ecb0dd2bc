-- ===== src/Background/Stopping.antt =====
-- What `stopAll` of lib/utils/background-task-manager.js leaves.
use jambonz_feature_server.Prelude.Maps.{lookup, remove}
use jambonz_feature_server.Prelude.{
  ℕ, ◌≡◌, refl, ap, ◌∙◌, sym, true, false, List, [], ◌∷◌, ◌++◌, append_assoc, append-nil, ◌==◌,
  arith,
}
use jambonz_feature_server.Background.{Task, Manager, returned, stop_key, stop_keys, stop_all, keys}

-- Every task has a span, and no key occurs twice.
unfoldable pub Absent : ℕ → List (ℕ × Task) → Type 0
Absent k [] = k ≡ k
Absent k ((j, t) ∷ ts) = (j == k) ≡ false × Absent k ts

unfoldable pub AllRun : List (ℕ × Task) → Type 0
unfolding Absent
AllRun [] = true ≡ true
AllRun ((k, t) ∷ ts) = t.has_span ≡ true × Absent k ts × AllRun ts

abbrev pub ids : List (ℕ × Task) → List ℕ
ids [] = []
ids ((k, t) ∷ ts) = t.id ∷ ids ts

remove-Absent : (k : ℕ) (ts : List (ℕ × Task)) → Absent k ts → remove k ts ≡ ts
unfolding remove Absent
remove-Absent k [] h = refl
remove-Absent k ((j, t) ∷ ts) h = rw h.0 (ap (λ us. (j, t) ∷ us) (remove-Absent k ts h.1))

stop_key_first :
    (k : ℕ) (t : Task) (ts : List (ℕ × Task)) (m : Manager)
    → t.has_span ≡ true
    → Absent k ts
    → stop_key k (record m { tasks = (k, t) ∷ ts })
      ≡ returned (record m {
        tasks = ts;
        killed = m.killed ++ t.id ∷ [];
        silenced = m.silenced ++ t.id ∷ [];
      })
unfolding lookup remove
stop_key_first k t ts m span absent =
    let gone = remove-Absent k ts absent in ground (arith, gone, span)

emptied :
    {ks ks' ss ss' : List ℕ} (m : Manager)
    → ks ≡ ks'
    → ss ≡ ss'
    → returned (record m { tasks = []; killed = ks; silenced = ss })
      ≡ returned (record m { tasks = []; killed = ks'; silenced = ss' })
emptied m p q = cc

stop_keys_all :
    (ts : List (ℕ × Task)) (m : Manager)
    → AllRun ts
    → stop_keys (keys ts) (record m { tasks = ts })
      ≡ returned
          (record m { tasks = []; killed = m.killed ++ ids ts; silenced = m.silenced ++ ids ts })
unfolding stop_keys AllRun
stop_keys_all [] m h = emptied m (sym (append-nil m.killed)) (sym (append-nil m.silenced))
stop_keys_all ((k, t) ∷ ts) m h =
    rw (stop_key_first k t ts m h.0 h.1, stop_keys)
      (stop_keys_all ts
          (record m { killed = m.killed ++ t.id ∷ []; silenced = m.silenced ++ t.id ∷ [] }) h.2
        ∙ emptied m (append_assoc m.killed (t.id ∷ []) (ids ts))
            (append_assoc m.silenced (t.id ∷ []) (ids ts)))

-- Where every tracked task has a span and no type has two tasks, `stopAll` returns, removes the
-- listeners of the tasks and kills them, in their order, and leaves none.
pub stop_all_lem :
    (m : Manager)
    → AllRun m.tasks
    → stop_all m
      ≡ returned (record m {
        tasks = [];
        killed = m.killed ++ ids m.tasks;
        silenced = m.silenced ++ ids m.tasks;
      })
unfolding stop_all
stop_all_lem m h = stop_keys_all m.tasks m h
