-- ===== src/Host/QemuType2/Tests.antt =====
-- Runs of qemu_type2.rs, and its theorems at concrete inputs.
use slug_arch.Base.{ℕ, ◌*◌, ◌≡◌, refl, arith, List, [], ◌∷◌, length, ok, err}
use slug_arch.Wire.Msg.{CxlMsg, S2mNdrOp, tag}
use slug_arch.Host.Types.{GemmJob, dispatch_failed, responses_length}
use slug_arch.Host.Dispatch.{build_gemm_dispatch_stream}
use slug_arch.Host.Endpoint.{Array}
use slug_arch.Host.QemuType2.{
  matmul, export_requests, flits, decode_chunks, tally, tally_kind, validate_responses,
}
use slug_arch.Host.QemuType2.Passes.{pass_summary, Validated, validate_responses-Validated}
use slug_arch.Host.QemuType2.Served.{
  responses_of, decode_chunks-export_requests, validate_responses-pass,
}

-- The identity times a matrix.
abbrev job : GemmJob
job = record {
  a =
      (1 ∷ 0 ∷ 0 ∷ 0 ∷ [])
      ∷ (0 ∷ 1 ∷ 0 ∷ 0 ∷ [])
      ∷ (0 ∷ 0 ∷ 1 ∷ 0 ∷ [])
      ∷ (0 ∷ 0 ∷ 0 ∷ 1 ∷ [])
      ∷ [];
  b =
      (2 ∷ 3 ∷ 4 ∷ 5 ∷ [])
      ∷ (6 ∷ 7 ∷ 8 ∷ 9 ∷ [])
      ∷ (10 ∷ 11 ∷ 12 ∷ 13 ∷ [])
      ∷ (14 ∷ 15 ∷ 16 ∷ 255 ∷ [])
      ∷ [];
}

abbrev blank_array : Array
blank_array = record { a = λ i. 0; b = λ i. 0; c = λ i. 0 }

matmul_of_identity : matmul job ≡ job.b
unfolding matmul
matmul_of_identity = refl

-- A rejected write with another tag counts twice.
tally_rejected :
    tally 0
      (CxlMsg.s2m_ndr 4 S2mNdrOp.cmp ∷ [])
      (CxlMsg.s2m_ndr 5 S2mNdrOp.dispatch_failed ∷ [])
      (record { mismatches = 0; failures = 0; read_responses = [] })
    ≡ record { mismatches = 1; failures = 1; read_responses = [] }
unfolding tally tally_kind tag
tally_rejected = refl

-- A file that is not whole flits.
validate_responses_short :
    validate_responses job (1 ∷ 2 ∷ []) "requests.bin" "responses.bin"
    ≡ err (dispatch_failed 0 (responses_length 2))
unfolding validate_responses
validate_responses_short = refl

decode_chunks-export_requests_example :
    (length ((export_requests job).0) ≡ 49 * 64)
    × (decode_chunks 49 ((export_requests job).0) ≡ ok (build_gemm_dispatch_stream job 0))
decode_chunks-export_requests_example = decode_chunks-export_requests job (omega arith)

validate_responses-pass_example :
    validate_responses job
      (flits (responses_of blank_array (build_gemm_dispatch_stream job 0)))
      "requests.bin"
      "responses.bin"
    ≡ ok (pass_summary job "requests.bin" "responses.bin")
validate_responses-pass_example =
    validate_responses-pass blank_array (λ row k hr lo hi. refl) job (omega arith) "requests.bin"
      "responses.bin"

-- The same run, for the witness below.
abbrev passing_bytes : List ℕ
passing_bytes = flits (responses_of blank_array (build_gemm_dispatch_stream job 0))

validate_responses-Validated_example :
    Validated job passing_bytes (pass_summary job "requests.bin" "responses.bin")
validate_responses-Validated_example =
    validate_responses-Validated job passing_bytes "requests.bin" "responses.bin"
      (pass_summary job "requests.bin" "responses.bin") (omega arith)
      (validate_responses-pass blank_array (λ row k hr lo hi. refl) job (omega arith) "requests.bin"
        "responses.bin")
