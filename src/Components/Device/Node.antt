-- ===== src/Components/Device/Node.antt =====
-- dashboard/src/components/DeviceNode.jsx: the SVG node of the graph.
use Prim.Native.String.{◌++◌}
use ariesmesh.Prelude.{◌+◌, ◌-◌, String, Bool, Option, [], ◌∷◌, if◌then◌else◌, Number, lit}
use ariesmesh.Dom.{Html, nothing, text, el, ◌&◌, attr, size, when, or_else}

unfoldable pub stroke_color : Bool → Bool → String
stroke_color is_self online = if is_self then "#00D4AA" else if online then "#1E3450" else "#3E2A2E"

module _ {F : Type 0} ⦃num : Number F⦄ where
  -- `w / 2` and `h / 2` are 84 and 32.
  unfoldable pub device_node : {A : Type 0} → F → F → String → Option String → Bool → Bool → Html A
  unfolding stroke_color
  device_node x y name subtitle is_self online =
      el "g"
        (attr "transform" (
            "translate("
            ++ (num.show (num.sub x (lit 84)) ++ (", " ++ (num.show (num.sub y (lit 32)) ++ ")"))))
          ∷ attr "opacity" (if online then "1" else "0.55")
          ∷ [])
        (when is_self (
            el "rect"
              (attr "x" "-3"
                ∷ attr "y" "-3"
                ∷ size "width" (168 + 6)
                ∷ size "height" (64 + 6)
                ∷ size "rx" 14
                ∷ attr "fill" "none"
                ∷ attr "stroke" "#00D4AA"
                ∷ attr "strokeWidth" "1"
                ∷ attr "opacity" "0.28"
                ∷ [])
              nothing)
          & el "rect"
              (attr "x" "0"
                ∷ attr "y" "0"
                ∷ size "width" 168
                ∷ size "height" 64
                ∷ size "rx" 11
                ∷ attr "fill" (if is_self then "#162235" else "#162235")
                ∷ attr "stroke" (stroke_color is_self online)
                ∷ attr "strokeWidth" (if is_self then "1.5" else "1")
                ∷ [])
              nothing
          & el "circle"
              (attr "cx" "14"
                ∷ attr "cy" "20"
                ∷ attr "r" "4"
                ∷ attr "fill" (if online then "#00D4AA" else "#EF4D5E")
                ∷ [])
              (when online (
                el "animate"
                  (attr "attributeName" "opacity"
                    ∷ attr "values" "1;0.5;1"
                    ∷ attr "dur" "2.2s"
                    ∷ attr "repeatCount" "indefinite"
                    ∷ [])
                  nothing))
          & el "text"
              (attr "x" "26"
                ∷ attr "y" "24"
                ∷ attr "fill" "#C8D6E5"
                ∷ attr "fontSize" "13"
                ∷ attr "fontWeight" "600"
                ∷ attr "fontFamily" "ui-sans-serif, system-ui"
                ∷ [])
              (text name)
          & el "text"
              (attr "x" "14"
                ∷ attr "y" "45"
                ∷ attr "fill" "#6B7F99"
                ∷ attr "fontSize" "11"
                ∷ attr "fontFamily" "ui-sans-serif, system-ui"
                ∷ [])
              (text (or_else subtitle ""))
          & when is_self (
              el "text"
                (size "x" (168 - 10)
                  ∷ attr "y" "18"
                  ∷ attr "textAnchor" "end"
                  ∷ attr "fill" "#00D4AA"
                  ∷ attr "fontSize" "9"
                  ∷ attr "fontWeight" "600"
                  ∷ attr "letterSpacing" "0.1em"
                  ∷ attr "fontFamily" "ui-sans-serif, system-ui"
                  ∷ [])
                (text "THIS DEVICE")))
