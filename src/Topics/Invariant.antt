-- ===== src/Topics/Invariant.antt =====
-- The rules of the table under every transaction of the topic routes.

use project_dipstick.Base.{ℕ, Bool, false, ◌≡◌, refl, sym, ◌∙◌, List, [], ◌∷◌, arith, map}
use project_dipstick.Base.Pairs.{Pairwise-follows, All-always}
use project_dipstick.Topics.Defs.{JsText, World, State}
use project_dipstick.Topics.Gates.{Ticket}
use project_dipstick.Topics.Names.{sort_rows, Plan}
use project_dipstick.Topics.Changes.{restore_target, commit_restore}
use project_dipstick.Topics.BulkRestore.{
  archived_defaults, finish_restore, restore_plan, commit_restore_defaults,
}
use project_dipstick.Base.Int.{ℤ}
use project_dipstick.Topics.Handle.{
  Change, add, assign_defaults, restore_defaults, archive, restore, reorder, annotate, commit,
}
use project_dipstick.Topics.Tidy.{clashes, AreApart, IsTidy}
use project_dipstick.Topics.Joining.{commit_add-IsTidy, commit_restore-IsTidy}
use project_dipstick.Topics.Copying.{commit_assign-IsTidy}
use project_dipstick.Topics.Quiet.{commit_archive-IsTidy, commit_annotate-IsTidy}
use project_dipstick.Topics.Reordering.{commit_reorder-IsTidy}
use project_dipstick.Topics.Sequence.{restore_each}
use project_dipstick.Topics.Parity.{commit_restore_defaults-restore_each}

-- Without the rule on names, less is asked.
pub IsTidy-unnamed :
    (js : JsText) (names : Bool) (s : State) → IsTidy js names s → IsTidy js false s
unfolding clashes
IsTidy-unnamed js names s tidy = record {
  apart =
      Pairwise-follows {0, 0, 0, 0} (AreApart js false) (AreApart js names) (λ t. Unit) s.topics
        (λ x y _ _ h. ground (arith, h)) (All-always (λ t. Unit) s.topics (λ t. tt)) tidy.apart;
  counted = tidy.counted;
  known = tidy.known;
}

commit_restore-next_id :
    (js : JsText) (now : ℕ) (t : Ticket) (id : ℕ) (s : State)
    → (commit_restore js now t id s).0.next_id ≡ s.next_id
unfolding commit_restore restore_target
commit_restore-next_id js now t id s = ground arith

restore_each-next_id :
    (js : JsText) (now : ℕ) (t : Ticket) (ids : List ℕ) (s : State)
    → (restore_each js now t ids s).next_id ≡ s.next_id
unfolding restore_each
restore_each-next_id js now t [] s = refl
restore_each-next_id js now t (id ∷ ids) s =
    restore_each-next_id js now t ids (commit_restore js now t id s).0
    ∙ commit_restore-next_id js now t id s

restore_each-IsTidy :
    (js : JsText) (names : Bool) (now : ℕ) (t : Ticket) (ids : List ℕ) (s : State)
    → IsTidy js names s
    → IsTidy js names (restore_each js now t ids s)
unfolding restore_each
restore_each-IsTidy js names now t [] s tidy = tidy
restore_each-IsTidy js names now t (id ∷ ids) s tidy =
    restore_each-IsTidy js names now t ids (commit_restore js now t id s).0
      (commit_restore-IsTidy js names now t id s tidy)

finish_restore-next_id :
    (now : ℕ) (t : Ticket) (p : ℤ) (plan : Plan) (s : State)
    → (finish_restore now t p plan s).0.next_id ≡ s.next_id
unfolding finish_restore restore_plan
finish_restore-next_id now t p plan s = ground arith

commit_restore_defaults-next_id :
    (js : JsText) (now : ℕ) (t : Ticket) (s : State)
    → (commit_restore_defaults js now t s).0.next_id ≡ s.next_id
unfolding commit_restore_defaults
commit_restore_defaults-next_id js now t s = finish_restore-next_id now t _ _ s

same_table-IsTidy :
    (js : JsText) (names : Bool) (a b : State)
    → a.topics ≡ b.topics
    → a.next_id ≡ b.next_id
    → IsTidy js names b
    → IsTidy js names a
same_table-IsTidy js names a b e k tidy = record {
  apart = rw (e) tidy.apart;
  counted = rw (e) tidy.counted;
  known = rw (e, k) tidy.known;
}

commit_restore_defaults-IsTidy :
    (js : JsText) (names : Bool) (now : ℕ) (t : Ticket) (s : State)
    → IsTidy js names s
    → IsTidy js names (commit_restore_defaults js now t s).0
commit_restore_defaults-IsTidy js names now t s tidy =
    let ids = map (λ r. r.id) (sort_rows (archived_defaults t.team s)) in
    same_table-IsTidy js names (commit_restore_defaults js now t s).0 (restore_each js now t ids s)
      ((commit_restore_defaults-restore_each js now t s (IsTidy-unnamed js names s tidy)).1)
      (commit_restore_defaults-next_id js now t s ∙ sym (restore_each-next_id js now t ids s))
      (restore_each-IsTidy js names now t ids s tidy)

-- Whatever a transaction of the topic routes finds, it keeps the table's rules, its errors
-- included: ids are unique and none is yet to come, positions of active topics are not negative
-- and unique within a team, and, where `names` holds, so are their names as compared.
pub commit-IsTidy :
    (js : JsText) (names : Bool) (w : World) (t : Ticket) (c : Change) (s : State)
    → IsTidy js names s
    → IsTidy js names (commit js w t c s).0
unfolding commit
commit-IsTidy js names w t (add n) s tidy = commit_add-IsTidy js names t n s tidy
commit-IsTidy js names w t assign_defaults s tidy =
    commit_assign-IsTidy js names w.audit_answers t s tidy
commit-IsTidy js names w t restore_defaults s tidy =
    commit_restore_defaults-IsTidy js names w.now t s tidy
commit-IsTidy js names w t (archive topic confirmed) s tidy =
    commit_archive-IsTidy js names w.now t topic confirmed s tidy
commit-IsTidy js names w t (restore topic) s tidy =
    commit_restore-IsTidy js names w.now t topic s tidy
commit-IsTidy js names w t (reorder ids) s tidy = commit_reorder-IsTidy js names t ids s tidy
commit-IsTidy js names w t (annotate topic a) s tidy =
    commit_annotate-IsTidy js names w.now t topic a s tidy
