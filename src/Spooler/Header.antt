-- ===== src/Spooler/Header.antt =====
-- How long the IPP header of printer/printd.c is, and what a reader of it finds.
use learn_apue.Base.{
  ℕ, zero, suc, ◌+◌, ◌*◌, ◌/◌, ◌%◌, ◌≤◌, ◌<◌, ◌≡◌, ◌≢◌, refl, Bool, true, false, Option, none, some,
  List, [], ◌∷◌, ◌++◌, arith, length, length-append, take, drop, take-append, drop-append, All, leb,
  ltb, ◌&&◌, ◌==◌, if◌then◌else◌,
}
use mathlib.Core.List.{append_assoc}
use learn_apue.Bytes.Text.{codes}
use learn_apue.Spooler.Ipp.{
  be16, be32, add_option, add_options, attributes, ipp_text, ipp_header, mime_type, is_text,
  printer_uri,
}
use learn_apue.Spooler.Jobs.{PrintReq}

length-add_option :
    (tag : ℕ) (name val : List ℕ) → length (add_option tag name val) ≡ 5 + length name + length val
unfolding add_option be16
length-add_option tag name val = omega (arith, length-append name (be16 (length val) ++ val))

-- The bytes that attributes take.
unfoldable pub total : List (ℕ × List ℕ × List ℕ) → ℕ
total [] = 0
total ((tag, name, val) ∷ l) = 5 + length name + length val + total l

length-add_options :
    (l : List (ℕ × List ℕ × List ℕ)) (end' : List ℕ)
    → length (add_options l end') ≡ total l + length end'
unfolding add_options total
length-add_options [] end' = omega arith
length-add_options ((tag, name, val) ∷ l) end' = omega (
  arith,
  length-append (add_option tag name val) (add_options l end'),
  length-add_option tag name val,
  length-add_options l end',
)

-- The header of a job takes 160 bytes and the lengths of the printer's name, the user's name, the
-- job's name and the document type.
pub length-ipp_text :
    (host : List ℕ) (jobid : ℕ) (req : PrintReq)
    → length (ipp_text host jobid req)
      ≡ 160
        + length host
        + length req.usernm
        + length req.jobnm
        + length (mime_type (is_text req.flags))
unfolding ipp_text attributes be16 be32 printer_uri total
length-ipp_text host jobid req =
    omega
      (arith, length-add_options (attributes host req) (3 ∷ []), length-append host (codes "/ipp"))

-- A string behind its length in two bytes; none if the bytes end first.
unfoldable pub read_string : List ℕ → Option (List ℕ × List ℕ)
read_string [] = none
read_string (hi ∷ []) = none
read_string (hi ∷ lo ∷ l) =
    if leb (hi * 256 + lo) (length l)
    then some (take (hi * 256 + lo) l, drop (hi * 256 + lo) l)
    else none

unfoldable pub with_second : Option (List ℕ × List ℕ) → Option (List ℕ × List ℕ × List ℕ)
with_second none = none
with_second (some (name, l)) = elim (read_string l) [
  | none ↦ none
  | some (val, rest) ↦ some (name, val, rest)
]

unfoldable pub attach :
    ℕ × List ℕ × List ℕ → Option (List (ℕ × List ℕ × List ℕ)) → Option (List (ℕ × List ℕ × List ℕ))
attach a none = none
attach a (some l) = some (a ∷ l)

-- A reader of attributes after RFC 2910: a tag, a name and a value each, until the tag 3. It reads at
-- most so many; none if the bytes end first, or more attributes come.
unfoldable pub read_attributes : ℕ → List ℕ → Option (List (ℕ × List ℕ × List ℕ))
read_attributes n [] = none
read_attributes zero (tag ∷ l) = if tag == 3 then some [] else none
read_attributes (suc n) (tag ∷ l) =
    let attribute : Option (List (ℕ × List ℕ × List ℕ)) = elim (with_second (read_string l)) [
      | none ↦ none
      | some (name, val, rest) ↦ attach (tag, name, val) (read_attributes n rest)
    ] in
    if tag == 3 then some [] else attribute

-- What an attribute is that the format can carry.
unfoldable pub Fits : ℕ × List ℕ × List ℕ → Type 0
Fits (tag, name, val) = (tag ≢ 3) × (length name < 65536) × (length val < 65536)

read_string-be16 :
    (s rest : List ℕ)
    → length s < 65536
    → read_string (be16 (length s) ++ (s ++ rest)) ≡ some (s, rest)
unfolding read_string be16
read_string-be16 s rest h =
    let e : length s / 256 % 256 * 256 + length s % 256 ≡ length s = omega arith in
    let room : leb (length s) (length (s ++ rest)) ≡ true = ground (arith, length-append s rest) in
    rw (e, room, take-append (length s) s rest refl, drop-append (length s) s rest refl)

add_option-rest :
    (tag : ℕ) (name val rest : List ℕ)
    → add_option tag name val ++ rest
      ≡ tag ∷ (be16 (length name) ++ (name ++ (be16 (length val) ++ (val ++ rest))))
unfolding add_option be16
add_option-rest tag name val rest = simp append_assoc

pub length-mime_type : (b : Bool) → length (mime_type b) ≤ 22
unfolding mime_type
length-mime_type true = omega arith
length-mime_type false = omega arith

Fits-attributes :
    (host : List ℕ) (req : PrintReq)
    → length host < 65000
    → length req.usernm < 65536
    → length req.jobnm < 65536
    → All Fits (attributes host req)
unfolding attributes Fits printer_uri
Fits-attributes host req hh hu hj =
    let uri : length (printer_uri host) < 65536 =
      omega (arith, length-append host (codes "/ipp")) in
    let mime = length-mime_type (is_text req.flags) in
    (
      (ground arith, omega arith, omega arith),
      (
        (ground arith, omega arith, omega arith),
        (
          (ground arith, omega arith, uri),
          (
            (ground arith, omega arith, hu),
            (
              (ground arith, omega arith, hj),
              ((ground arith, omega arith, omega (arith, mime)), tt),
            ),
          ),
        ),
      ),
    )

read_attributes-add_options :
    (l : List (ℕ × List ℕ × List ℕ))
    → All Fits l
    → read_attributes (length l) (add_options l (3 ∷ [])) ≡ some l
unfolding read_attributes add_options Fits with_second attach
read_attributes-add_options [] h = refl
read_attributes-add_options ((tag, name, val) ∷ l) ((ne, hn, hv), hs) =
    let e : (tag == 3) ≡ false = ground arith in
    let more = add_options l (3 ∷ []) in
    rw (
      add_option-rest tag name val more,
      e,
      read_string-be16 name (be16 (length val) ++ (val ++ more)) hn,
      read_string-be16 val more hv,
      read_attributes-add_options l hs,
    )

-- A header that fits its buffers is built.
pub ipp_header-ipp_text :
    (host : List ℕ) (jobid : ℕ) (req : PrintReq)
    → length (printer_uri host) < 64
    → length (ipp_text host jobid req) ≤ 512
    → ipp_header host jobid req ≡ some (ipp_text host jobid req)
unfolding ipp_header
ipp_header-ipp_text host jobid req hu hi =
    let fits : (ltb (length (printer_uri host)) 64 && leb (length (ipp_text host jobid req)) 512)
        ≡ true =
      ground arith in
    rw fits refl

-- If the printer's name has at most 52 bytes, and it, the user's name, the job's name and the
-- document type have at most 352 bytes together, then the IPP header is built inside its buffers,
-- and a reader of the attributes finds behind its first nine bytes the six that are sent.
pub read_attributes-ipp_header :
    (host : List ℕ) (jobid : ℕ) (req : PrintReq)
    → length host ≤ 52
    → length host + length req.usernm + length req.jobnm + length (mime_type (is_text req.flags))
      ≤ 352
    → (ibuf : List ℕ) × (ipp_header host jobid req ≡ some ibuf)
      × (read_attributes 6 (drop 9 ibuf) ≡ some (attributes host req))
unfolding ipp_text attributes be16 be32 printer_uri
read_attributes-ipp_header host jobid req hh ht = (
  ipp_text host jobid req,
  ipp_header-ipp_text host jobid req (omega (arith, length-append host (codes "/ipp")))
      (omega (arith, length-ipp_text host jobid req)),
  read_attributes-add_options (attributes host req)
      (Fits-attributes host req (omega arith) (omega arith) (omega arith)),
)
