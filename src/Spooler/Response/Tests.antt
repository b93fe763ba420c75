-- ===== src/Spooler/Response/Tests.antt =====
-- The theorems on the printer's answer, at one with status 200 behind one with status 100.
use learn_apue.Base.{
  ℕ, ◌+◌, ◌≤◌, ◌<◌, length, length-append, ◌≡◌, refl, true, false, List, [], ◌∷◌, ◌++◌, map, arith,
  All, ltb, if◌then◌else◌,
}
use learn_apue.Bytes.Decimal.{print, length-print}
use learn_apue.Bytes.Text.{codes}
use learn_apue.Spooler.Ipp.{be16, be32}
use learn_apue.Spooler.Response.Answers.{
  Start, code_line, length-code_line, start_bytes, IsSuccess, IppAnswer, ipp_bytes,
}
use learn_apue.Spooler.Response.Scans.{length_field, blank_line}
use learn_apue.Spooler.Response.Passed.{
  IsInfo, chunk_of, printer_status-error, printer_status-success, printer_status-NoEnd,
}
use learn_apue.Spooler.Response.{begins, to_lower, printer_status, returns, overrun, out_of_rounds}

abbrev line : ℕ → List ℕ → Start
line code reason = record {
  version = codes "HTTP/1.1";
  code = code;
  reason = reason;
  fields = 10 ∷ b'C' ∷ b':' ∷ 13 ∷ 10 ∷ [];
  len = 9;
}

abbrev success : Start
success = line 200 (codes "OK")

abbrev infos : List (Start × List ℕ)
infos = (line 100 (codes "Go"), 10 ∷ 13 ∷ 10 ∷ []) ∷ []

abbrev ipp : IppAnswer
ipp = record { major = 1; minor = 1; status = 1; request_id = 7; attributes = 3 ∷ [] }

-- A number below 1000 has at most three digits.
short :
    (s : Start) (rest : List ℕ)
    → s.code < 1000
    → length s.version + length s.reason + length rest ≤ 8000
    → length (code_line s rest) ≤ 8192
short s rest h small = omega (arith, length-code_line s rest, length-print 2 s.code h)

short_field :
    (rest : List ℕ) → length rest ≤ 100 → 10 + length (success.fields ++ length_field 9 rest) ≤ 8000
short_field rest h =
    omega (arith, length-append (print 9) (13 ∷ rest), length-print 0 9 (omega arith))

infos-IsInfo : All IsInfo infos
infos-IsInfo = (
  (
    record {
      version_size = omega arith;
      one_line = (refl, (refl, tt));
      fits = short (line 100 (codes "Go")) (10 ∷ 13 ∷ 10 ∷ []) (omega arith) (omega arith);
    },
    omega arith,
    omega arith,
  ),
  tt,
)

success-IsSuccess : (rest : List ℕ) → IsSuccess success rest
unfolding begins to_lower
success-IsSuccess rest = record {
  version_size = omega arith;
  one_line = (refl, (refl, tt));
  at_least = omega arith;
  at_most = omega arith;
  first_field = (refl, (refl, (refl, (refl, (refl, tt)))));
}

printer_status-error_example :
    printer_status 2 7 (map chunk_of infos ++ (code_line (line 404 (codes "No")) [] ∷ []))
    ≡ (if ltb (length (code_line (line 404 (codes "No")) [])) 8192 then returns false else overrun)
printer_status-error_example =
    printer_status-error infos 2 7 (line 404 (codes "No")) [] [] infos-IsInfo
      (record {
        version_size = omega arith;
        one_line = (refl, (refl, tt));
        fits = short (line 404 (codes "No")) [] (omega arith) (omega arith);
      })
      (omega arith) (omega arith) (omega arith)

printer_status-success_example :
    printer_status 8 7
      (map chunk_of infos ++ (start_bytes success ([] ++ (blank_line ++ ipp_bytes ipp)) ∷ []))
    ≡ returns true
unfolding be16 be32
printer_status-success_example =
    printer_status-success infos 8 7 success [] ipp [] infos-IsInfo
      (success-IsSuccess ([] ++ (blank_line ++ ipp_bytes ipp))) tt (omega arith) (omega arith)
      (omega arith)
      (short success _ (omega arith)
        (short_field ([] ++ (blank_line ++ ipp_bytes ipp)) (omega arith)))
      (omega arith)

printer_status-NoEnd_example :
    printer_status 100 7 (map chunk_of infos ++ (start_bytes success (10 ∷ []) ∷ []))
    ≡ out_of_rounds
unfolding begins
printer_status-NoEnd_example =
    printer_status-NoEnd infos 100 7 success (10 ∷ []) [] infos-IsInfo (success-IsSuccess (10 ∷ []))
      ((λ e. cc), tt) (omega arith)
      (short success _ (omega arith) (short_field (10 ∷ []) (omega arith))) (omega arith)
