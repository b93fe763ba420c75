-- ===== src/Spooler/Client.antt =====
-- The request that `submit_file` of printer/print.c builds. The byte order of its numbers on the way
-- is not modelled.
use learn_apue.Base.{
  ℕ, ◌+◌, ◌-◌, ◌%◌, ◌^◌, ◌≤◌, ◌<◌, Bool, Option, none, some, List, [], ◌∷◌, ◌++◌, arith, take, drop,
  length, length-append, leb, ◌≡◌, if◌then◌else◌, Bool-cases, inl, inr, zero, suc,
}
use learn_apue.Bytes.Text.{codes}
use learn_apue.Spooler.Header.{length-ipp_text, length-mime_type, ipp_header-ipp_text}
use learn_apue.Spooler.Ipp.{ipp_text, ipp_header, is_text, printer_uri}
use learn_apue.Spooler.Jobs.{PrintReq}

-- The job's name: the file's, or "... " and its last 251 bytes.
unfoldable pub job_name : List ℕ → List ℕ
job_name fname =
    if leb 256 (length fname)
    then codes "... " ++ take 251 (drop (length fname - 256 + 5) fname)
    else fname

-- The user's name, if `getpwuid` knows it.
unfoldable pub user_name : Option (List ℕ) → List ℕ
user_name none = codes "unknown"
user_name (some pw_name) = take 63 pw_name

-- The request for a file of so many bytes.
unfoldable pub build_request : Option (List ℕ) → List ℕ → ℕ → Bool → PrintReq
build_request pwd fname nbytes text = record {
  size = nbytes % 2 ^ 32;
  flags = if text then 1 else 0;
  usernm = user_name pwd;
  jobnm = job_name fname;
}

length-take_le : (n : ℕ) (xs : List ℕ) → length (take n xs) ≤ n
length-take_le zero xs = omega arith
length-take_le (suc n) [] = omega arith
length-take_le (suc n) (x ∷ xs) = omega (arith, length-take_le n xs)

length-job_name : (fname : List ℕ) → length (job_name fname) ≤ 255
unfolding job_name
length-job_name fname = elim (Bool-cases (leb 256 (length fname))) [
  | inl long ↦ rw long (omega (arith, length-take_le 251 (drop (length fname - 256 + 5) fname)))
  | inr short ↦ rw short (ground arith)
]

length-user_name : (pwd : Option (List ℕ)) → length (user_name pwd) ≤ 63
unfolding user_name
length-user_name none = omega arith
length-user_name (some pw_name) = length-take_le 63 pw_name

-- In a request that `submit_file` builds, whatever the names of the user and the file are, both
-- names with their null bytes fit their fields; and if the printer's name has at most 12 bytes,
-- the IPP header for the request has at most 512 and is built inside its buffers.
pub length-build_request :
    (host fname : List ℕ) (pwd : Option (List ℕ)) (jobid nbytes : ℕ) (text : Bool)
    → length host ≤ 12
    → (length (build_request pwd fname nbytes text).usernm < 64)
      × (length (build_request pwd fname nbytes text).jobnm < 256)
      × (length (ipp_text host jobid (build_request pwd fname nbytes text)) ≤ 512)
      × (ipp_header host jobid (build_request pwd fname nbytes text)
          ≡ some (ipp_text host jobid (build_request pwd fname nbytes text)))
unfolding build_request printer_uri
length-build_request host fname pwd jobid nbytes text h =
    let user = length-user_name pwd in
    let job = length-job_name fname in
    let r = build_request pwd fname nbytes text in
    let size : length (ipp_text host jobid r) ≤ 512 =
      omega (arith, length-ipp_text host jobid r, length-mime_type (is_text r.flags)) in
    (
      omega arith,
      omega arith,
      size,
      ipp_header-ipp_text host jobid r (omega (arith, length-append host (codes "/ipp"))) size,
    )
