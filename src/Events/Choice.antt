-- ===== src/Events/Choice.antt =====
-- Which mechanism pmf_event_pre_init chooses, and how many descriptors pmf_event_init_main
-- reserves.
use pmf.Common.{
  Bool-cases, List, [], ap, arith, false, if◌then◌else◌, inl, inr, int_max, ltb_ℤ, map, negsuc, pos,
  pos_part, refl, some, sym, true, wrap_int, wrap_int_lem, ℕ, ℤ, ◌*ℤ◌, ◌*◌, ◌+ℤ◌, ◌+◌, ◌↔◌, ◌∙◌,
  ◌∷◌, ◌≡◌, ◌≤◌, ◌⊎◌,
}
use pmf.Text.Chars.{Text, str_case_eq, str_case_eq_iff, text, to_lower}
use pmf.Conf.Records.{WorkerPool}
use pmf.Events.{EventModule, count_fds, init_main, pre_init, support_edge_trigger}

epoll_iff :
    (mechanism : Text)
    → (str_case_eq (text "epoll") mechanism ≡ true) ↔ (text "epoll" ≡ map to_lower mechanism)
epoll_iff mechanism = str_case_eq_iff (text "epoll") mechanism

select_iff :
    (mechanism : Text)
    → (str_case_eq (text "select") mechanism ≡ true) ↔ (text "select" ≡ map to_lower mechanism)
select_iff mechanism = str_case_eq_iff (text "select") mechanism

names_differ : text "epoll" ≡ text "select" → ⊥
names_differ h = cc

no_and_yes : false ≡ true → ⊥
no_and_yes h = cc

-- A mechanism that is asked for is chosen exactly if its name is "epoll" or "select", in any case,
-- and the events are then edge-triggered exactly for "epoll".
pub pre_init-names :
    (mechanism : Text) (edge : ℤ)
    → ((pre_init (some mechanism)).0 ≡ pos 0)
        × (support_edge_trigger (pre_init (some mechanism)).1 ≡ edge)
      ↔ (((edge ≡ pos 1) × (text "epoll" ≡ map to_lower mechanism))
          ⊎ ((edge ≡ pos 0) × (text "select" ≡ map to_lower mechanism)))
unfolding pre_init support_edge_trigger
pre_init-names mechanism edge = elim (Bool-cases (str_case_eq (text "epoll") mechanism)) [
  | inl e ↦
      let name : text "epoll" ≡ map to_lower mechanism = (epoll_iff mechanism).0 e in
      rw e (
        λ (_, kind). inl (sym kind, name),
        λ m. elim m [
          | inl (kind, _) ↦ (refl, sym kind)
          | inr (_, other) ↦ absurd (names_differ (name ∙ sym other))
        ],
      )
  | inr n ↦ elim (Bool-cases (str_case_eq (text "select") mechanism)) [
    | inl e ↦
        let name : text "select" ≡ map to_lower mechanism = (select_iff mechanism).0 e in
        rw (n, e)
          (
            λ (_, kind). inr (sym kind, name),
            λ m. elim m [
              | inl (_, other) ↦ absurd (names_differ (other ∙ sym name))
              | inr (kind, _) ↦ (refl, sym kind)
            ],
          )
    | inr k ↦
        rw (n, k)
          (
            λ (code, _). absurd (cc),
            λ m. elim m [
              | inl (_, name) ↦ absurd (no_and_yes (sym n ∙ (epoll_iff mechanism).1 name))
              | inr (_, name) ↦ absurd (no_and_yes (sym k ∙ (select_iff mechanism).1 name))
            ],
          )
  ]
]

-- The children of some pools, together.
unfoldable pub all_children : List WorkerPool → ℕ
all_children [] = 0
all_children (wp ∷ pools) = pos_part wp.config.pm_max_children + all_children pools

twice : (c : ℕ) → pos c *ℤ pos 2 ≡ pos (2 * c)
unfolding ◌*ℤ◌
twice c = ground arith

sum : (a b : ℕ) → pos a +ℤ pos b ≡ pos (a + b)
unfolding ◌+ℤ◌
sum a b = ground arith

count_fds_lem :
    (pools : List WorkerPool) (n : ℕ)
    → n + 2 * all_children pools ≤ int_max
    → count_fds pools (pos n) ≡ pos (n + 2 * all_children pools)
unfolding count_fds all_children
count_fds_lem [] n h = ap pos (omega arith)
count_fds_lem (wp ∷ pools) n h =
    ap (count_fds pools) (more wp.config.pm_max_children (omega arith))
    ∙ count_fds_lem pools (n + 2 * pos_part wp.config.pm_max_children) (omega arith)
    ∙ ap pos (omega arith)
  where
    more :
        (children : ℤ)
        → n + 2 * pos_part children ≤ int_max
        → (if ltb_ℤ (pos 0) children
            then wrap_int (pos n +ℤ wrap_int (children *ℤ pos 2))
            else pos n)
          ≡ pos (n + 2 * pos_part children)
    more (pos c) k =
        let inner : wrap_int (pos c *ℤ pos 2) ≡ pos (2 * c) =
          ap wrap_int (twice c)
          ∙ wrap_int_lem (pos (2 * c)) (record { above = omega arith; below = omega arith }) in
        let outer : wrap_int (pos n +ℤ pos (2 * c)) ≡ pos (n + 2 * c) =
          ap wrap_int (sum n (2 * c))
          ∙ wrap_int_lem (pos (n + 2 * c)) (record { above = omega arith; below = omega arith }) in
        elim (Bool-cases (ltb_ℤ (pos 0) (pos c))) [
          | inl e ↦ rw e (ap (λ m. wrap_int (pos n +ℤ m)) inner ∙ outer)
          | inr e ↦ rw e (ap pos (ground arith))
        ]
    more (negsuc c) k = ground arith

-- The event module is told of one descriptor and two for each child that a pool may have, where
-- that number fits in an `int`, and pmf_event_init_main fails exactly if the module does.
pub init_main-count :
    (chosen : EventModule) (init : ℤ → ℤ) (pools : List WorkerPool)
    → 1 + 2 * all_children pools ≤ int_max
    → init_main (some chosen) init pools
      ≡ (if ltb_ℤ (init (pos (1 + 2 * all_children pools))) (pos 0) then negsuc 0 else pos 0)
unfolding init_main
init_main-count chosen init pools h =
    ap (λ n. if ltb_ℤ (init n) (pos 0) then negsuc 0 else pos 0) (count_fds_lem pools 1 h)
