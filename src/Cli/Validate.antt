-- ===== src/Cli/Validate.antt =====
-- What `validate` of crates/slugarch-cli/src/main.rs can accept.
use Prim.Native.String.{String}
use text.Mathlib.TextPositions.{eq_refl}
use slug_arch.Base.{◌≡◌, ◌+◌, ◌^◌, ◌<◌, length, refl, ap, ◌∙◌, List, [], ◌∷◌, map, err, ◌>>=◌}
use slug_arch.Ir.Graph.{Function}
use slug_arch.Ir.ValidateAgainstRtlmap.{
  PipelineRtlmap, RtlmapDiff, run_validate, diff_function, verdict_of_diff,
}
use slug_arch.Ir.ValidateAgainstRtlmap.Matching.{TokenEdge}
use slug_arch.Ir.ValidateAgainstRtlmap.Decides.{is_empty-no_edges}
use slug_arch.Ir.AssignTokens.{oracle_mismatch}
use slug_arch.Fabric.Engine.{IpDevice}
use slug_arch.Frontend.Ast.{Directive, EntryView}
use slug_arch.Frontend.Kernel.Lowered.{entries_of, entries_count, kernels, kernel_function}
use slug_arch.Cli.{CliError, validate, validate_failed, no_functions, map_err, first_name}
use slug_arch.Cli.Functions.{ready}
use slug_arch.Cli.Run.{lower-ready}

-- The pass on the first of some functions, without edges.
mismatch :
    (render : RtlmapDiff → String) (f : Function) (oracle : PipelineRtlmap)
    (hints : List (String × String)) (a b : String)
    → f.edges ≡ []
    → TokenEdge oracle.edges a b
    → verdict_of_diff render (diff_function f oracle hints)
      ≡ err (oracle_mismatch (render (diff_function f oracle hints)))
mismatch render f oracle hints a b e t = rw (is_empty-no_edges f oracle hints a b e t) refl

run_validate-first :
    (render : RtlmapDiff → String) (f : Function) (fs : List Function) (oracle : PipelineRtlmap)
    (hints : List (String × String))
    → run_validate render
        (record { oracle = oracle; function_name = f.name; node_id_of_hint = hints })
        (record { functions = f ∷ fs; symbols = [] })
      ≡ verdict_of_diff render (diff_function f oracle hints)
unfolding run_validate
run_validate-first render f fs oracle hints = rw (run_validate, eq_refl f.name) refl

module _ {Data : Type 0} (debug : Data → String) (dev : IpDevice)
    (render : RtlmapDiff → String) where
  -- The error of the refusal.
  abbrev pub Refuses : List (EntryView Data) → PipelineRtlmap → List (String × String) → CliError
  Refuses [] oracle hints = no_functions
  Refuses (e ∷ es) oracle hints =
      validate_failed
        (oracle_mismatch (render (diff_function (ready (kernel_function debug e 0)) oracle hints)))

  -- A kernel that was lowered has no edges, so that on a module with fewer than 2^32 instructions in
  -- its entry kernels validate refuses every pipeline with a token edge: with a mismatch, or for
  -- want of a function when there is no kernel.
  pub validate-TokenEdge :
      (parsed : List (Directive Data)) (oracle : PipelineRtlmap) (hints : List (String × String))
      (a b : String)
      → TokenEdge oracle.edges a b
      → entries_count (entries_of parsed) < 2 ^ 32
      → validate debug dev render parsed oracle hints
        ≡ err (Refuses (entries_of parsed) oracle hints)
  unfolding validate
  validate-TokenEdge parsed oracle hints a b t small =
      rw (lower-ready debug dev parsed small) (refused (entries_of parsed))
    where
      refused :
          (es : List (EntryView Data))
          → (first_name debug dev (map ready (kernels debug es 0)) >>= λ name.
              map_err validate_failed (
                run_validate render
                  (record { oracle = oracle; function_name = name; node_id_of_hint = hints })
                  (record { functions = map ready (kernels debug es 0); symbols = [] })))
            ≡ err (Refuses es oracle hints)
      refused [] = refl
      refused (e ∷ es) =
          let f = ready (kernel_function debug e 0) in
          ap (map_err validate_failed) (
            run_validate-first render f (map ready (kernels debug es (0 + length e.instructions)))
              oracle hints
            ∙ mismatch render f oracle hints a b refl t)
