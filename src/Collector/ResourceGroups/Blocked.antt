-- ===== src/Collector/ResourceGroups/Blocked.antt =====
-- tms/collector/resourcegroups.py: which groups are said to hold queries back.
use trino_management_service.Prelude.{
  ℕ, ◌≤◌, ◌<◌, ltb, leb, Bool, true, false, ◌&&◌, ◌||◌, none, some, List, [], ◌∷◌, count, length,
  ◌≡◌, ◌≢◌, ◌↔◌, refl, arith,
}
use trino_management_service.Collector.ResourceGroups.{
  Group, diagnose, reached, reached_if_known, BlockedGroup, add_blocked, blocked_of, insert_blocked,
  sort_blocked, sum_of, rollup,
}

-- A group is said to be held back exactly when its queue is full, or queries wait and one of its three
-- limits is reached; and never without a query that waits.
pub diagnose_iff :
    (g : Group)
    → ((diagnose g ≢ none) ↔ (
        (reached g.max_queued g.queued
          || (ltb 0 g.queued
              && (reached g.hard_concurrency_limit g.running
                  || reached_if_known g.soft_memory_limit_bytes g.memory_bytes
                  || reached_if_known g.hard_cpu_limit_ms g.cpu_ms)))
        ≡ true))
      × (diagnose g ≢ none → 0 < g.queued)
unfolding diagnose
diagnose_iff g = ground arith

abbrev pub is_held : Group → Bool
is_held g = elim g.bottleneck [ none ↦ false | some r ↦ true ]

-- No item has fewer queries waiting than the one behind it.
abbrev pub is_descending : List BlockedGroup → Bool
is_descending [] = true
is_descending (b ∷ []) = true
is_descending (b ∷ c ∷ rest) = leb c.queued b.queued && is_descending (c ∷ rest)

abbrev queued_of : BlockedGroup → ℕ
queued_of b = b.queued

blocked_of-length : (gs : List Group) → length (blocked_of gs) ≡ count is_held gs
unfolding blocked_of
blocked_of-length [] = refl
blocked_of-length (g ∷ gs) = ground (arith, blocked_of-length gs)

blocked_of-sum :
    (gs : List Group) → sum_of queued_of (blocked_of gs) ≤ sum_of (λ (g : Group). g.queued) gs
unfolding blocked_of
blocked_of-sum [] = omega arith
blocked_of-sum (g ∷ gs) = ground (arith, blocked_of-sum gs)

insert_blocked-descending :
    (b : BlockedGroup) (bs : List BlockedGroup)
    → is_descending bs ≡ true
    → is_descending (insert_blocked b bs) ≡ true
insert_blocked-descending b [] h = refl
insert_blocked-descending b (c ∷ []) h = ground arith
insert_blocked-descending b (c ∷ d ∷ bs) h = ground (arith, h, insert_blocked-descending b (d ∷ bs))

sort_blocked-descending : (bs : List BlockedGroup) → is_descending (sort_blocked bs) ≡ true
unfolding sort_blocked
sort_blocked-descending [] = refl
sort_blocked-descending (b ∷ bs) =
    insert_blocked-descending b (sort_blocked bs) (sort_blocked-descending bs)

insert_blocked-count :
    (p : BlockedGroup → Bool) (b : BlockedGroup) (bs : List BlockedGroup)
    → count p (insert_blocked b bs) ≡ count p (b ∷ bs)
insert_blocked-count p b [] = refl
insert_blocked-count p b (c ∷ bs) = ground (arith, insert_blocked-count p b bs)

sort_blocked-count :
    (p : BlockedGroup → Bool) (bs : List BlockedGroup) → count p (sort_blocked bs) ≡ count p bs
unfolding sort_blocked
sort_blocked-count p [] = refl
sort_blocked-count p (b ∷ bs) =
    ground (arith, sort_blocked-count p bs, insert_blocked-count p b (sort_blocked bs))

-- The items of the groups that are held back.
abbrev pub held_items : List Group → List BlockedGroup
held_items [] = []
held_items (g ∷ gs) = add_blocked g.bottleneck g (held_items gs)

blocked_of-eq : (gs : List Group) → blocked_of gs ≡ held_items gs
unfolding blocked_of
blocked_of-eq [] = refl
blocked_of-eq (g ∷ gs) = rw (blocked_of-eq gs) refl

-- The summary lists every group that is held back, each as often as it occurs, counts them, and has
-- those with the most waiting queries first.
pub rollup-blocked :
    (gs : List Group) (p : BlockedGroup → Bool)
    → (count p (rollup gs).blocked ≡ count p (held_items gs))
      × ((rollup gs).blocked_groups ≡ count is_held gs)
      × (is_descending (rollup gs).blocked ≡ true)
unfolding rollup
rollup-blocked gs p = (
  rw (sort_blocked-count p (blocked_of gs), blocked_of-eq gs) refl,
  blocked_of-length gs,
  sort_blocked-descending (blocked_of gs),
)
