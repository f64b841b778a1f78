-- ===== src/Pages/Inference.antt =====
-- dashboard/src/pages/Inference.jsx
pub mod View
pub mod Tables
use Prim.Native.String.{◌++◌}
use ariesmesh.Prelude.{
  ℕ, ◌+◌, ◌==◌, String, Bool, true, false, Option, none, some, List, [], ◌∷◌, if◌then◌else◌, str_eq,
  decimal, length, keep, take, min, Number, fmin, fmax, lit,
}
use ariesmesh.Dom.{Html, nothing, text, el, ◌&◌, class, attr, each, each_from, or_else}
use ariesmesh.Components.StatusBadge.{status_badge}

-- A configuration of `/api/inference`; a score that is missing is `none`.
pub record Config (F : Type 0) : Type 0 where
  pub config_id : String
  pub model_name : String
  pub config_type : String
  pub devices : Option (List String)
  pub estimated_tok_s : F
  pub weighted_score : F
  pub privacy_score : Option F
  pub capability_score : Option F
  pub cost_score : Option F

pub record Session : Type 0 where
  pub config_id : String
  pub model_name : String
  pub config_type : String
  pub workers_ready : Option (List (String × Bool))

pub record Receipt (F : Type 0) : Type 0 where
  pub task_id : String
  pub action : String
  pub model_used : Option String
  pub tokens_used : Option ℕ
  pub latency_ms : Option F
  pub status : String

module _ {A : Type 0} where
  unfoldable pub config_tone_badge : String → Html A
  config_tone_badge type =
      if str_eq type "local"
      then status_badge "success" "local" false
      else if str_eq type "distributed"
      then status_badge "info" "distributed" true
      else if str_eq type "cloud"
      then status_badge "warning" "cloud" false
      else status_badge "muted" type false

-- `c.devices?.length || 0`, and the number of the ready workers
unfoldable pub device_count : {F : Type 0} → Config F → ℕ
device_count c = elim c.devices [ none ↦ 0 | some ds ↦ length ds ]

unfoldable pub worker_list : Session → List (String × Bool)
worker_list s = elim s.workers_ready [ none ↦ [] | some ws ↦ ws ]

unfoldable pub ready_count : Session → ℕ
ready_count s = length (keep (λ w. w.1) (worker_list s))

module _ {F : Type 0} ⦃num : Number F⦄ where
  -- `(value || 0) * 100`, clamped
  unfoldable pub score_percent : Option F → F
  score_percent none = fmax (lit 0) (fmin (lit 100) (num.mul (lit 0) (lit 100)))
  score_percent (some v) = fmax (lit 0) (fmin (lit 100) (num.mul v (lit 100)))

  unfoldable pub score_bar : {A : Type 0} → Option F → String → Html A
  score_bar value label =
      let pct = score_percent value in
      el "div" (class "flex items-center gap-2 text-xs" ∷ []) (
        el "span" (class "text-aries-text-dim w-16" ∷ []) (text label)
        & el "div" (class "flex-1 h-1 rounded-full bg-aries-border/60" ∷ []) (
            el "div"
              (class "h-full rounded-full bg-aries-teal/80"
                ∷ attr "style.width" (num.show pct ++ "%")
                ∷ [])
              nothing)
        & el "span" (class "text-aries-text font-mono w-9 text-right" ∷ [])
            (text (num.to_fixed pct 0)))

  -- one row of the table, with its rank
  unfoldable pub config_row : {A : Type 0} → ℕ → Config F → Html A
  config_row i c = el "tr" (class "hover:bg-aries-surface-hi/30 transition-colors" ∷ []) (
      el "td" (class "px-5 py-3.5" ∷ []) (
        el "div" (class "text-aries-text font-medium" ∷ []) (text c.model_name)
        & el "div" (class "text-[11px] text-aries-text-dim font-mono" ∷ []) (text c.config_id))
      & el "td" (class "px-5 py-3.5" ∷ []) (config_tone_badge c.config_type)
      & el "td" (class "px-5 py-3.5" ∷ []) (
          el "div" (class "flex items-center gap-1.5" ∷ []) (
            el "span" (class "text-aries-text" ∷ []) (text (decimal (device_count c)))
            & el "span" (class "text-aries-text-dim text-xs" ∷ [])
                (text (if device_count c == 1 then "device" else "devices"))))
      & el "td" (class "px-5 py-3.5 text-right" ∷ [])
          (el "span" (class "text-aries-text font-mono" ∷ []) (text (num.show c.estimated_tok_s)))
      & el "td" (class "px-5 py-3.5 text-right" ∷ []) (
          el "span"
            (class (
                "font-mono "
                ++ (if i == 0 then "text-aries-teal font-semibold" else "text-aries-text"))
              ∷ [])
            (text (num.to_fixed (num.mul c.weighted_score (lit 100)) 0))
          & (if i == 0
              then el "span" (class "ml-1 text-[10px] text-aries-teal" ∷ []) (text "★")
              else nothing)))
