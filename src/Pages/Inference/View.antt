-- ===== src/Pages/Inference/View.antt =====
-- The cards of dashboard/src/pages/Inference.jsx.
use Prim.Native.String.{◌++◌}
use ariesmesh.Prelude.{
  ◌==◌, String, Option, none, some, List, [], ◌∷◌, if◌then◌else◌, str_eq, decimal, length, take,
  min, Number, is_some,
}
use ariesmesh.Dom.{Html, nothing, text, el, ◌&◌, class, attr, each, each_from, or_else, when}
use ariesmesh.Pages.Inference.{
  Config, Session, Receipt, config_tone_badge, worker_list, ready_count, score_bar, config_row,
}

abbrev card_class : String
card_class = "rounded-(--radius-card) border border-aries-border bg-aries-surface p-5"

abbrev card_title : {A : Type 0} → String → String → String → Html A
card_title over extra title = el "div" [] (
    el "div" (class "text-xs uppercase tracking-[0.18em] text-aries-text-dim" ∷ []) (text over)
    & el "div" (class ("text-lg font-semibold text-aries-text" ++ extra) ∷ []) (text title))

abbrev heading : {A : Type 0} → String → String → Html A
heading align label =
    el "th" (class ("px-5 py-3 text-" ++ (align ++ " font-medium")) ∷ []) (text label)

module _ {A : Type 0} where
  unfoldable pub no_configs : Html A
  no_configs =
      el "div"
        (class "rounded-(--radius-card) border border-aries-border bg-aries-surface p-8 text-center"
          ∷ [])
        (el "Brain"
            (attr "size" "32"
              ∷ attr "strokeWidth" "1.5"
              ∷ class "mx-auto text-aries-text-dim mb-3"
              ∷ [])
            nothing
          & el "div" (class "text-aries-text font-medium mb-1" ∷ [])
              (text "No inference configurations yet")
          & el "div" (class "text-sm text-aries-text-dim max-w-md mx-auto" ∷ []) (
              text
                "The registry didn't find a usable llama.cpp build or any GGUF model files on this device. Install "
              & el "code" (class "text-aries-teal" ∷ []) (text "llama-server")
              & text " and drop a "
              & el "code" (class "text-aries-teal" ∷ []) (text ".gguf")
              & text " file under"
              & text " "
              & el "code" (class "text-aries-teal" ∷ []) (text "~/.aries/<name>/models/")
              & text "."))

  unfoldable pub active_session : Option Session → Html A
  active_session active =
      el "div"
        (class
            "relative rounded-(--radius-card) border border-aries-border bg-aries-surface p-5 overflow-hidden"
          ∷ [])
        (when (is_some active) (
            el "div" (class "absolute inset-x-0 top-0 h-px aries-shimmer pointer-events-none" ∷ [])
              nothing)
          & el "div" (class "flex items-baseline justify-between mb-3" ∷ []) (
              card_title "Active Inference Session" " mt-0.5"
                (elim active [ none ↦ "Idle" | some s ↦ s.model_name ])
              & el "Zap"
                  (attr "size" "18"
                    ∷ attr "strokeWidth" "1.5"
                    ∷ class (
                        if is_some active
                        then "text-aries-teal aries-pulse"
                        else "text-aries-text-dim")
                    ∷ [])
                  nothing)
          & elim active [
            | none ↦ el "div" (class "text-sm text-aries-text-dim py-4" ∷ []) (
                text "Nothing running right now. The next "
                & el "code" (class "text-aries-teal" ∷ []) (text "aries invoke")
                & text " will show up here when it routes to a distributed configuration.")
            | some s ↦ el "div" (class "space-y-3 text-sm" ∷ []) (
                el "div" (class "flex items-baseline justify-between" ∷ []) (
                  el "span" (class "text-aries-text-dim" ∷ []) (text "Type")
                  & config_tone_badge s.config_type)
                & el "div" (class "flex items-baseline justify-between" ∷ []) (
                    el "span" (class "text-aries-text-dim" ∷ []) (text "Workers ready")
                    & el "span" (class "font-mono text-aries-text" ∷ []) (
                        text (decimal (ready_count s))
                        & text "/"
                        & text (decimal (length (worker_list s)))))
                & el "div" (class "flex items-baseline justify-between" ∷ []) (
                    el "span" (class "text-aries-text-dim" ∷ []) (text "Session")
                    & el "span"
                        (class "font-mono text-[11px] text-aries-text truncate ml-3 max-w-[200px]"
                          ∷ [])
                        (text s.config_id)))
          ])

abbrev task_heading : {A : Type 0} → String → String → Html A
task_heading names label = el "th" (class names ∷ []) (text label)

abbrev or_empty : {B : Type 0} → Option (List B) → List B
or_empty none = []
or_empty (some xs) = xs

module _ {F : Type 0} ⦃num : Number F⦄ where
  -- `t.latency_ms ? t.latency_ms.toFixed(0) + 'ms' : '—'`; the number 0 is falsy
  unfoldable pub task_latency : Option F → String
  task_latency none = "—"
  task_latency (some ms) =
      if num.lt ms (num.of_ℕ 0)
      then num.to_fixed ms 0 ++ "ms"
      else if num.lt (num.of_ℕ 0) ms
      then num.to_fixed ms 0 ++ "ms"
      else "—"

module _ {F : Type 0} ⦃num : Number F⦄ {A : Type 0} where
  unfoldable pub configs_table : List (Config F) → Html A
  configs_table [] = no_configs
  configs_table (c ∷ cs) =
      let configs = c ∷ cs in
      el "div"
        (class "rounded-(--radius-card) border border-aries-border bg-aries-surface overflow-hidden"
          ∷ [])
        (el "div"
            (class "px-5 py-4 border-b border-aries-border flex items-baseline justify-between"
              ∷ [])
            (el "div" [] (
                el "div" (class "text-xs uppercase tracking-[0.18em] text-aries-text-dim" ∷ [])
                  (text "Available Configurations")
                & el "div" (class "text-lg font-semibold text-aries-text mt-0.5" ∷ []) (
                    text (decimal (length configs))
                    & text " "
                    & text (if length configs == 1 then "option" else "options")
                    & text " ranked by scheduler"))
              & el "Cpu"
                  (attr "size" "18" ∷ attr "strokeWidth" "1.5" ∷ class "text-aries-text-dim" ∷ [])
                  nothing)
          & el "div" (class "overflow-x-auto" ∷ []) (
              el "table" (class "w-full text-sm" ∷ []) (
                el "thead"
                  (class
                      "bg-aries-surface-hi/40 text-aries-text-dim text-xs uppercase tracking-wider"
                    ∷ [])
                  (el "tr" [] (
                    heading "left" "Model"
                    & heading "left" "Type"
                    & heading "left" "Devices"
                    & heading "right" "Est. tok/s"
                    & heading "right" "Score"))
                & el "tbody" (class "divide-y divide-aries-border/60" ∷ [])
                    (each_from 0 configs config_row))))

  abbrev detail : Config F → Html A
  detail c = el "div" [] (
      el "div" (class "flex items-baseline justify-between mb-2" ∷ []) (
        el "div" (class "text-sm font-medium text-aries-text" ∷ []) (text c.model_name)
        & config_tone_badge c.config_type)
      & el "div" (class "space-y-1.5" ∷ []) (
          score_bar c.privacy_score "privacy"
          & score_bar c.capability_score "capability"
          & score_bar c.cost_score "cost"))

  unfoldable pub config_details : List (Config F) → Html A
  config_details [] = nothing
  config_details (c ∷ cs) = el "div" (class card_class ∷ []) (
      el "div" (class "text-xs uppercase tracking-[0.18em] text-aries-text-dim mb-1" ∷ [])
        (text "Scoring breakdown")
      & el "div" (class "text-lg font-semibold text-aries-text mb-4" ∷ [])
          (text "How the scheduler picked")
      & el "div" (class "space-y-5" ∷ []) (each (take 3 (c ∷ cs)) detail))

  unfoldable pub task_row : Receipt F → Html A
  task_row t = el "tr" (class "hover:bg-aries-surface-hi/30 transition-colors" ∷ []) (
      el "td"
        (class "py-2.5 pr-3 font-mono text-[11px] text-aries-text truncate max-w-[140px]" ∷ [])
        (text t.task_id)
      & el "td" (class "py-2.5 px-3 text-aries-text" ∷ []) (text t.action)
      & el "td" (class "py-2.5 px-3 text-aries-text-dim truncate max-w-[160px]" ∷ [])
          (text (or_else t.model_used "—"))
      & el "td" (class "py-2.5 px-3 text-right font-mono text-aries-text" ∷ [])
          (text (decimal (elim t.tokens_used [ none ↦ 0 | some n ↦ n ])))
      & el "td" (class "py-2.5 px-3 text-right font-mono text-aries-text" ∷ [])
          (text (task_latency t.latency_ms))
      & el "td" (class "py-2.5 pl-3 text-right" ∷ []) (
          if str_eq t.status "error"
          then el "X" (attr "size" "14" ∷ class "text-aries-error inline" ∷ []) nothing
          else el "Check" (attr "size" "14" ∷ class "text-aries-success inline" ∷ []) nothing))

  unfoldable pub recent_tasks : List (Receipt F) → Html A
  recent_tasks tasks = el "div" (class card_class ∷ []) (
      el "div" (class "flex items-baseline justify-between mb-3" ∷ []) (
        el "div" [] (
          el "div" (class "text-xs uppercase tracking-[0.18em] text-aries-text-dim" ∷ [])
            (text "Recent Tasks")
          & el "div" (class "text-lg font-semibold text-aries-text mt-0.5" ∷ [])
              (text "Last " & text (decimal (min (length tasks) 20)) & text " receipts")))
      & (if length tasks == 0
          then el "div" (class "text-sm text-aries-text-dim py-6 text-center" ∷ [])
              (text "No completed tasks yet.")
          else el "div" (class "overflow-x-auto" ∷ []) (
              el "table" (class "w-full text-sm" ∷ []) (
                el "thead"
                  (class
                      "text-aries-text-dim text-xs uppercase tracking-wider border-b border-aries-border"
                    ∷ [])
                  (el "tr" [] (
                    task_heading "py-2 pr-3 text-left font-medium" "Task"
                    & task_heading "py-2 px-3 text-left font-medium" "Action"
                    & task_heading "py-2 px-3 text-left font-medium" "Model"
                    & task_heading "py-2 px-3 text-right font-medium" "Tokens"
                    & task_heading "py-2 px-3 text-right font-medium" "Latency"
                    & task_heading "py-2 pl-3 text-right font-medium" "Status"))
                & el "tbody" (class "divide-y divide-aries-border/40" ∷ [])
                    (each tasks task_row)))))

  -- The page, from what `useAPI` has of the two endpoints.
  unfoldable pub inference_page :
      Option (List (Config F)) → Option Session → Option (List (Receipt F)) → Html A
  inference_page configurations active tasks =
      let configs = or_empty configurations in
      el "div" (class "space-y-6" ∷ []) (
        configs_table configs
        & el "div" (class "grid grid-cols-1 lg:grid-cols-2 gap-6" ∷ [])
            (active_session active & config_details configs)
        & recent_tasks (or_empty tasks))
