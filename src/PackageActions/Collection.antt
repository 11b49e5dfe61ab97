-- ===== src/PackageActions/Collection.antt =====
-- A poll hands out each action once.
use cloudable.Base.{
  ℕ, ◌≡◌, refl, true, false, [], arith, filter, map, ok, update_where, filter-update_where,
  update_where_none, number_eq,
}
use cloudable.PackageActions.{
  ActionRow, Env, Tables, collectable, start_row, collect_pending_actions,
}

collected_leaves :
    (now machine : ℕ) (r : ActionRow)
    → collectable machine r ≡ true
    → collectable machine (start_row now r) ≡ false
collected_leaves now machine r h = ground arith

-- A poll returns exactly the machine's pending actions, marked as running since then; and the next
-- poll of that machine, at any time and with no request between, returns none and changes nothing.
collect_once :
    (env later : Env) (machine : ℕ) (t : Tables)
    → env.write_down ≡ false
    → later.write_down ≡ false
    → let (res, u) = collect_pending_actions env machine t in
      (res ≡ ok (map (start_row env.now) (filter (collectable machine) t.actions)))
      × (collect_pending_actions later machine u ≡ (ok [], u))
unfolding collect_pending_actions
collect_once env later machine t up up_later =
    let none_left =
      filter-update_where (collectable machine) (start_row env.now)
        (collected_leaves env.now machine) t.actions in
    let same =
      update_where_none (collectable machine) (start_row later.now)
        (update_where (collectable machine) (start_row env.now) t.actions) none_left in
    (simp up refl, simp (up, up_later, none_left, same))
