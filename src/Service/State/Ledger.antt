-- ===== src/Service/State/Ledger.antt =====
-- What a request enters into the ledger of the writes past a buffer.
use can_monitor.Base.{List, [], ◌∷◌, ◌++◌, Bytes, ◌≡◌, ◌≢◌, ◌⊎◌, inl, ap, sym, length, ◌+◌, ◌∙◌}
use can_monitor.Frame.Parse.{Overrun}
use can_monitor.Service.Json.{Json}
use can_monitor.Service.State.Overruns.{create_error_message-overruns}
use can_monitor.Service.State.{State, Response, Reply, create_error_message}
use mathlib.Core.List.{append_assoc}

-- The later state has entries in front of those of the earlier one.
abbrev pub Grown : State → State → Type 0
Grown st st' = (over : List Overrun) × (st'.overruns ≡ over ++ st.overruns)

pub Grown-trans : (a b c : State) → Grown a b → Grown b c → Grown a c
Grown-trans a b c (over, e) (over', e') = (
  over' ++ over,
  e' ∙ ap (λ (l : List Overrun). over' ++ l) e ∙ sym (append_assoc over' over a.overruns),
)

-- A reply that is an error comes with an entry; any other comes with none.
abbrev pub Recorded : State → Reply → Type 0
Recorded st r =
    ((r.response ≡ Response.error)
      × ((over : List Overrun) × (over ≢ []) × (r.state.overruns ≡ over ++ st.overruns)))
    ⊎ ((r.response ≢ Response.error) × (r.state.overruns ≡ st.overruns))

not_empty : (o : Overrun) (os : List Overrun) → o ∷ os ≢ []
not_empty o os e = cc

-- An error message, after other entries.
pub error-Recorded :
    (json : Json) (m : Bytes) (st st' : State)
    → Grown st st'
    → Recorded st (create_error_message json m st')
error-Recorded json m st st' (over, e) =
    let r = create_error_message json m st' in
    let (error, ledger) = create_error_message-overruns json m st' in
    let entry : Overrun = record { capacity = length r.text; written = length r.text + 1 } in
    inl (
      error,
      (
        entry ∷ over,
        not_empty entry over,
        ap (λ (s : State). s.overruns) ledger ∙ ap (λ (l : List Overrun). entry ∷ l) e,
      ),
    )
