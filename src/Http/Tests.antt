-- ===== src/Http/Tests.antt =====
-- Concrete bodies, and the theorems on chunked bodies at concrete inputs.
use posthog_c.Base.{◌≡◌, refl, true, false, none, some, [], ◌∷◌, ◌++◌, Bytes, codes, arith}
use posthog_c.Http.{
  complete, truncated, malformed, too_large, hex_value, hex_size, to_line_end, crlf, overruns,
  chunk_data, chunks, decode_chunked_full,
}
use posthog_c.Http.Lines.{IsLine, Line}
use posthog_c.Http.Frames.{IsChunk, Chunk, body_text, payload, decode_chunked_full-body_text}
use posthog_c.Http.Bounds.{Within, decode_chunked_full-Within}
use posthog_c.Http.Head.{
  match_key, find_field, skip_blank, content_value, content_digits, scan_content_length,
  lists_chunked, decode_response_body,
}
use posthog_c.Http.Fields.{HeadLines, head_text}
use posthog_c.Http.Responses.{
  Fits, IsLength, decode_response_body-Fits, scan_content_length-IsLength,
}
use posthog_c.Base.Int.{pos}
use posthog_c.Http.Tokens.{lists_chunked_enough}
use posthog_c.Http.Url.{part, url_host, parse_url, UrlFits, parse_url_lem, parse_url-UrlFits}
use posthog_c.Http.Rounds.{chunks_enough}

-- "B;q=1" CR LF "hello world" CR LF, then "0" CR LF, one trailer field and the blank line.
abbrev hello : Chunk
hello = record {
  line = record {
    first = record { value = 11; capital = true };
    more = [];
    ext = some (codes "q=1");
  };
  data_bytes = codes "hello world";
}

abbrev zero_line : Line
zero_line = record { first = record { value = 0; capital = false }; more = []; ext = none }

abbrev body : Bytes
body = body_text (hello ∷ []) zero_line (codes "T: x" ∷ []) []

body_bytes :
    body
    ≡ codes "B;q=1"
      ++ (13 ∷ 10 ∷ codes "hello world"
          ++ (13 ∷ 10 ∷ b'0' ∷ 13 ∷ 10 ∷ codes "T: x" ++ (13 ∷ 10 ∷ 13 ∷ 10 ∷ [])))
body_bytes = refl

too_small : decode_chunked_full (some 3) body ≡ too_large
unfolding decode_chunked_full chunks hex_size hex_value to_line_end crlf chunk_data overruns
too_small = refl

cut_short : decode_chunked_full (some 9) (b'3' ∷ 13 ∷ 10 ∷ codes "ab") ≡ truncated
unfolding decode_chunked_full chunks hex_size hex_value to_line_end crlf chunk_data
cut_short = refl

no_size : decode_chunked_full (some 9) (codes "x") ≡ malformed
unfolding decode_chunked_full chunks hex_size hex_value
no_size = refl

zero_line-IsLine : IsLine zero_line
zero_line-IsLine = record { digits = omega arith; fits = omega arith; ext_fits = tt }

hello-IsChunk : IsChunk hello
hello-IsChunk = record {
  line_fits = record {
    digits = omega arith;
    fits = omega arith;
    ext_fits = (refl, (refl, (refl, tt)));
  };
  counted = refl;
  some_data = omega arith;
}

decode_chunked_full-body_text_example :
    decode_chunked_full (some 12) body ≡ complete (payload (hello ∷ []))
decode_chunked_full-body_text_example =
    decode_chunked_full-body_text (hello ∷ []) (some 12) zero_line (codes "T: x" ∷ []) []
      (hello-IsChunk, tt) zero_line-IsLine refl
      ((omega arith, (refl, (refl, (refl, (refl, tt))))), tt) (omega arith) (omega arith)

decode_chunked_full-Within_test : Within 12 (decode_chunked_full (some 12) body)
decode_chunked_full-Within_test = decode_chunked_full-Within 12 body

chunks_enough_test : chunks 40 none [] body ≡ chunks 99 none [] body
chunks_enough_test = chunks_enough 40 99 none [] body (omega arith) (omega arith)

abbrev head : HeadLines
head = record {
  status = record {
    version = codes "1.1";
    hundreds = 2;
    tens = 0;
    units = 0;
    reason = codes " OK";
  };
  before = record { name = codes "Server"; content = codes " h" } ∷ [];
  name = codes "Transfer-encoding";
  codings = record { gap = codes " "; word = codes "gzip" } ∷ [];
  last = record { gap = codes " "; word = codes "Chunked" };
  after = codes "A: b" ∷ [];
}

abbrev head_bytes : Bytes
head_bytes = head_text head []

head_is :
    head_bytes
    ≡ codes "HTTP/1.1 200 OK"
      ++ (13 ∷ 10 ∷ codes "Server: h"
          ++ (13 ∷ 10 ∷ codes "Transfer-encoding: gzip, Chunked" ++ (13 ∷ 10 ∷ codes "A: b")))
head_is = refl

abbrev response : Bytes
response = head_text head (13 ∷ 10 ∷ 13 ∷ 10 ∷ body)

-- Nine digits pass the ceiling.
over_ceiling : scan_content_length (codes "Content-Length: 999999999") ≡ pos 999999999
unfolding scan_content_length find_field match_key skip_blank content_value content_digits
over_ceiling = refl

decode_response_body-Fits_example : Fits 12 (decode_response_body (some response) (some 12))
decode_response_body-Fits_example = decode_response_body-Fits (some response) 12

scan_content_length-IsLength_example :
    IsLength (scan_content_length (codes "Content-Length: 999999999"))
scan_content_length-IsLength_example =
    scan_content_length-IsLength (codes "Content-Length: 999999999")

lists_chunked_enough_test : lists_chunked 9 (codes "gzip, x") ≡ lists_chunked 40 (codes "gzip, x")
lists_chunked_enough_test = lists_chunked_enough 9 40 (codes "gzip, x") (omega arith) (omega arith)

abbrev host : Bytes
host = codes "us.i.posthog.com"

no_host : parse_url (codes "http:///batch") ≡ none
unfolding parse_url url_host part
no_host = refl

parse_url_lem_example :
    (parse_url (codes "http://" ++ (host ++ codes "/batch"))
      ≡ some (record { host = host; port = codes "80"; path = codes "/batch"; is_https = false }))
    × (parse_url (codes "https://" ++ (host ++ codes "/batch"))
        ≡ some (record { host = host; port = codes "443"; path = codes "/batch"; is_https = true }))
    × (parse_url (codes "http://" ++ (host ++ (b':' ∷ (codes "8000" ++ codes "/batch"))))
        ≡ some
            (record { host = host; port = codes "8000"; path = codes "/batch"; is_https = false }))
    × (parse_url (codes "https://" ++ (host ++ (b':' ∷ (codes "8000" ++ codes "/batch"))))
        ≡ some
            (record { host = host; port = codes "8000"; path = codes "/batch"; is_https = true }))
parse_url_lem_example =
    parse_url_lem host (codes "8000") (codes "batch") (ground arith) (omega arith) (omega arith)
      (ground arith) (omega arith) (omega arith)

parse_url-UrlFits_test : UrlFits (parse_url (codes "https://us.i.posthog.com:8000/batch"))
parse_url-UrlFits_test = parse_url-UrlFits (codes "https://us.i.posthog.com:8000/batch")
