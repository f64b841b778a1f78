-- ===== src/Pages/Inference/Tables.antt =====
-- The tables of Inference.jsx, counted.
use ariesmesh.Prelude.{
  clamped, ℕ, zero, suc, suc-==_zero, ◌≤◌, ◌≡◌, String, false, Option, none, some, List, ◌∷◌, arith,
  length, length-keep, Number, IsOrdered, lit, str_eq, Bool-cases, inl, inr,
}
use ariesmesh.Dom.Query.{
  count_tag, count_attr, count_tag-each, count_tag-each_from, count_attr-each_from,
}
use ariesmesh.Components.StatusBadge.{status_badge, tone_class}
use ariesmesh.Pages.Inference.{
  Config, Session, Receipt, config_tone_badge, worker_list, ready_count, score_percent, config_row,
}
use ariesmesh.Pages.Inference.View.{configs_table, recent_tasks, task_row}

abbrev pub star_class : String
star_class = "ml-1 text-[10px] text-aries-teal"

module _ (A : Type 0) where
  badge_rows : (type : String) → count_tag "tr" (config_tone_badge {A = A} type) ≡ 0
  unfolding config_tone_badge status_badge
  badge_rows type = elim (Bool-cases (str_eq type "local")) [
    | inl e ↦ rw e
    | inr e ↦ rw e (elim (Bool-cases (str_eq type "distributed")) [
      | inl d ↦ rw d
      | inr d ↦ rw d (elim (Bool-cases (str_eq type "cloud")) [ inl c ↦ rw c | inr c ↦ rw c ])
    ])
  ]

  badge_stars :
      (type : String) → count_attr "className" star_class (config_tone_badge {A = A} type) ≡ 0
  unfolding config_tone_badge status_badge tone_class
  badge_stars type = elim (Bool-cases (str_eq type "local")) [
    | inl e ↦ rw e
    | inr e ↦ rw e (elim (Bool-cases (str_eq type "distributed")) [
      | inl d ↦ rw d
      | inr d ↦ rw d (elim (Bool-cases (str_eq type "cloud")) [ inl c ↦ rw c | inr c ↦ rw c ])
    ])
  ]

module _ {F : Type 0} ⦃num : Number F⦄ (A : Type 0) where
  config_row_rows : (i : ℕ) (c : Config F) → count_tag "tr" (config_row {A = A} i c) ≡ 1
  unfolding config_row
  config_row_rows zero c = rw (badge_rows A c.config_type)
  config_row_rows (suc i) c = rw (badge_rows A c.config_type, suc-==_zero i)

  -- The table has one row for each configuration, below its heading.
  pub configs_table_rows :
      (c : Config F) (cs : List (Config F))
      → count_tag "tr" (configs_table {A = A} (c ∷ cs)) ≡ suc (length (c ∷ cs))
  unfolding configs_table
  configs_table_rows c cs =
      omega (arith, count_tag-each_from "tr" 1 0 (c ∷ cs) (config_row {A = A}) config_row_rows)

  task_row_rows : (t : Receipt F) → count_tag "tr" (task_row {A = A} t) ≡ 1
  unfolding task_row
  task_row_rows t = elim (Bool-cases (str_eq t.status "error")) [ inl e ↦ rw e | inr e ↦ rw e ]

  -- When the server sends a task, the table has a row for each of its tasks, and its heading.
  pub recent_tasks_rows :
      (t : Receipt F) (ts : List (Receipt F))
      → count_tag "tr" (recent_tasks {A = A} (t ∷ ts)) ≡ suc (length (t ∷ ts))
  unfolding recent_tasks
  recent_tasks_rows t ts =
      ground (arith, count_tag-each "tr" 1 (t ∷ ts) (task_row {A = A}) task_row_rows)

  star_first : (c : Config F) → count_attr "className" star_class (config_row {A = A} 0 c) ≡ 1
  unfolding config_row
  star_first c = rw (badge_stars A c.config_type)

  star_later :
      (i : ℕ) (c : Config F) → count_attr "className" star_class (config_row {A = A} (suc i) c) ≡ 0
  unfolding config_row
  star_later i c = rw (badge_stars A c.config_type, suc-==_zero i)

  -- When there is a configuration, exactly one star is shown, however many there are.
  pub configs_table_star :
      (c : Config F) (cs : List (Config F))
      → count_attr "className" star_class (configs_table {A = A} (c ∷ cs)) ≡ 1
  unfolding configs_table
  configs_table_star c cs = omega (
    arith,
    star_first c,
    count_attr-each_from "className" star_class 0 cs (config_row {A = A}) star_later,
  )

-- No more workers are counted as ready than there are.
pub ready-le_workers : (s : Session) → ready_count s ≤ length (worker_list s)
unfolding ready_count
ready-le_workers s = length-keep (λ w. w.1) (worker_list s)

module _ {F : Type 0} ⦃num : Number F⦄ (o : IsOrdered num) where
  -- On numbers without NaN in a strict order that whole numbers keep, the bar of a score is between 0 and 100 percent,
  -- whatever the score is, or if it is missing.
  pub score_percent_bounds :
      (v : Option F)
      → (num.lt (score_percent v) (lit 0) ≡ false) × (num.lt (lit 100) (score_percent v) ≡ false)
  unfolding score_percent
  score_percent_bounds none = clamped o (num.mul (lit 0) (lit 100))
  score_percent_bounds (some v) = clamped o (num.mul v (lit 100))
