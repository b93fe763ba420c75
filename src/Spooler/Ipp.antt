-- ===== src/Spooler/Ipp.antt =====
-- The headers that `printer_thread` of printer/printd.c sends, with the constants of printer/ipp.h.
use learn_apue.Base.{
  ℕ, zero, suc, ◌+◌, ◌/◌, ◌%◌, Bool, true, false, ◌&&◌, Option, none, some, List, [], ◌∷◌, ◌++◌,
  length, ltb, leb, if◌then◌else◌,
}
use learn_apue.Bytes.Decimal.{print}
use learn_apue.Bytes.Text.{codes}
use learn_apue.Spooler.Jobs.{PrintReq}

-- `htons` and `htonl`: the high byte first.
unfoldable pub be16 : ℕ → List ℕ
be16 n = n / 256 % 256 ∷ n % 256 ∷ []

unfoldable pub be32 : ℕ → List ℕ
be32 n = be16 (n / 65536) ++ be16 n

-- `add_option`: the bytes that it writes.
unfoldable pub add_option : ℕ → List ℕ → List ℕ → List ℕ
add_option tag optname optval =
    tag ∷ (be16 (length optname) ++ (optname ++ (be16 (length optval) ++ optval)))

-- `PR_TEXT` is the lowest bit of the flags.
unfoldable pub is_text : ℕ → Bool
is_text flags = elim (flags % 2) [ zero ↦ false | suc n ↦ true ]

unfoldable pub mime_type : Bool → List ℕ
mime_type true = codes "text/plain"
mime_type false = codes "application/postscript"

unfoldable pub printer_uri : List ℕ → List ℕ
printer_uri printer_name = codes "http://" ++ (printer_name ++ codes "/ipp")

-- The attributes of the request, each a tag, a name and a value.
unfoldable pub attributes : List ℕ → PrintReq → List (ℕ × List ℕ × List ℕ)
attributes printer_name req =
    (0x47, codes "attributes-charset", codes "utf-8")
    ∷ (0x48, codes "attributes-natural-language", codes "en-us")
    ∷ (0x45, codes "printer-uri", printer_uri printer_name)
    ∷ (0x42, codes "requesting-user-name", req.usernm)
    ∷ (0x42, codes "job-name", req.jobnm)
    ∷ (0x49, codes "document-format", mime_type (is_text req.flags))
    ∷ []

-- The calls of `add_option`, one after the other.
unfoldable pub add_options : List (ℕ × List ℕ × List ℕ) → List ℕ → List ℕ
add_options [] end' = end'
add_options ((tag, name, val) ∷ l) end' = add_option tag name val ++ add_options l end'

-- The IPP header's bytes: version 1.1, the operation, the job's number, the attributes between their
-- tags.
unfoldable pub ipp_text : List ℕ → ℕ → PrintReq → List ℕ
ipp_text printer_name jobid req =
    1 ∷ 1 ∷ (be16 2 ++ (be32 jobid ++ (1 ∷ add_options (attributes printer_name req) (3 ∷ []))))

-- IBUFSZ and HBUFSZ, the sizes of `ibuf` and `hbuf`.
abbrev pub header_bufsz : ℕ
header_bufsz = 512

-- The IPP header as it is built in `ibuf`, with the printer's address in `str[64]`. Neither is
-- checked: none if one of them is overrun.
unfoldable pub ipp_header : List ℕ → ℕ → PrintReq → Option (List ℕ)
ipp_header printer_name jobid req =
    let ibuf = ipp_text printer_name jobid req in
    if ltb (length (printer_uri printer_name)) 64 && leb (length ibuf) header_bufsz
    then some ibuf
    else none

-- `extra`: one byte more is sent in front of plain text.
unfoldable pub extra : Bool → ℕ
extra true = 1
extra false = 0

unfoldable pub crlf : List ℕ
crlf = 13 ∷ 10 ∷ []

-- The HTTP header's bytes for a file of the size and an IPP header of the length.
unfoldable pub http_text : List ℕ → ℕ → ℕ → Bool → List ℕ
http_text printer_name st_size ilen text =
    codes "POST /ipp HTTP/1.1"
    ++ (crlf
        ++ (codes "Content-Length: "
            ++ (print (st_size + ilen + extra text)
                ++ (crlf
                    ++ (codes "Content-Type: application/ipp"
                        ++ (crlf
                            ++ (codes "Host: "
                                ++ (printer_name ++ (codes ":631" ++ (crlf ++ crlf))))))))))

-- The HTTP header as it is built in `hbuf`, which is not checked: none if it is overrun.
unfoldable pub http_header : List ℕ → ℕ → ℕ → Bool → Option (List ℕ)
http_header printer_name st_size ilen text =
    let hbuf = http_text printer_name st_size ilen text in
    if leb (length hbuf) header_bufsz then some hbuf else none
