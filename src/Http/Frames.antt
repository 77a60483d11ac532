-- ===== src/Http/Frames.antt =====
-- A chunked body as RFC 9112 lays it out, and what decode_chunked_full of src/ph_http.c makes of it.
use posthog_c.Base.{
  ℕ, zero, suc, ◌+◌, ◌-◌, ◌≤◌, ◌<◌, ◌≡◌, refl, sym, ap, ◌∙◌, false, Option, none, some, List, [],
  ◌∷◌, ◌++◌, ltb, ◌==◌, length, Bytes, All, arith, append_assoc, length-append, append-nil,
  take-append_length, drop-append_length,
}
use posthog_c.Http.{
  size_max, to_line_end, Verdict, complete, crlf, trailers, overruns, chunk_data, chunks,
  decode_chunked_full,
}
use posthog_c.Http.Lines.{
  Line, IsLine, InLine, size_of, line_text, ext_text, hex_text, size_read, ext_passed, in_line,
}

-- Trailer fields, and the blank line that ends them.
abbrev pub trailer_text : List Bytes → Bytes → Bytes
trailer_text [] rest = 13 ∷ 10 ∷ rest
trailer_text (t ∷ ts) rest = t ++ (13 ∷ 10 ∷ trailer_text ts rest)

abbrev pub IsTrailer : Bytes → Type 0
IsTrailer t = (0 < length t) × All InLine t

trailers_end :
    (ts : List Bytes) (fuel : ℕ) (out rest : Bytes)
    → All IsTrailer ts
    → length ts < fuel
    → trailers fuel out (trailer_text ts rest) ≡ complete out
unfolding trailers crlf
trailers_end ts zero out rest h hf = absurd (omega arith)
trailers_end [] (suc fuel) out rest h hf = unfold to_line_end in ground arith
trailers_end (t ∷ ts) (suc fuel) out rest ((pos, line), hs) hf =
    let longer : (suc (suc (length (trailer_text ts rest)))
          == length (t ++ (13 ∷ 10 ∷ trailer_text ts rest)))
        ≡ false =
      ground (arith, length-append t (13 ∷ 10 ∷ trailer_text ts rest)) in
    rw (in_line t (trailer_text ts rest) line, trailers, longer)
      (trailers_end ts fuel out rest hs (omega arith))

trailers_length : (ts : List Bytes) (rest : Bytes) → length ts < length (trailer_text ts rest)
trailers_length [] rest = omega arith
trailers_length (t ∷ ts) rest =
    omega (arith, trailers_length ts rest, length-append t (13 ∷ 10 ∷ trailer_text ts rest))

-- A chunk: its size line and its data.
pub record Chunk : Type 0 where
  pub line : Line
  pub data_bytes : Bytes

pub record IsChunk (c : Chunk) : Type 0 where
  pub line_fits : IsLine c.line
  pub counted : size_of c.line ≡ length c.data_bytes
  pub some_data : 0 < length c.data_bytes

abbrev pub Room : Option ℕ → ℕ → Type 0
Room none n = Unit
Room (some cap) n = n < cap

Room-le : (cap : Option ℕ) (n m : ℕ) → Room cap n → m ≤ n → Room cap m
Room-le none n m h l = tt
Room-le (some cap) n m h l = omega arith

has-Room :
    (cap : Option ℕ) (out : Bytes) (n : ℕ) → Room cap (length out + n) → overruns cap out n ≡ false
unfolding overruns
has-Room none out n h = refl
has-Room (some cap) out n h = ground arith

data_read :
    (next : Bytes → Bytes → Verdict) (cap : Option ℕ) (out d rest : Bytes)
    → Room cap (length out + length d)
    → length out + length d ≤ size_max
    → chunk_data next cap out (length d) (d ++ (13 ∷ 10 ∷ rest)) ≡ next (out ++ d) rest
unfolding chunk_data
data_read next cap out d rest room b =
    let there : ltb (length (d ++ (13 ∷ 10 ∷ rest))) (length d) ≡ false =
      ground (arith, length-append d (13 ∷ 10 ∷ rest)) in
    let below : ltb (size_max - length out) (length d) ≡ false = ground arith in
    rw
      (
        there,
        below,
        has-Room cap out (length d) room,
        take-append_length d (13 ∷ 10 ∷ rest),
        drop-append_length d (13 ∷ 10 ∷ rest),
      )
      (unfold crlf in refl)

abbrev pub chunk_text : Chunk → Bytes → Bytes
chunk_text c rest = line_text c.line (c.data_bytes ++ (13 ∷ 10 ∷ rest))

chunk_read :
    (fuel : ℕ) (cap : Option ℕ) (out : Bytes) (c : Chunk) (rest : Bytes)
    → IsChunk c
    → Room cap (length out + length c.data_bytes)
    → length out + length c.data_bytes ≤ size_max
    → chunks (suc fuel) cap out (chunk_text c rest) ≡ chunks fuel cap (out ++ c.data_bytes) rest
unfolding chunks crlf chunk_data
chunk_read fuel cap out c rest v room b =
    let some_size : (length c.data_bytes == 0) ≡ false = ground (arith, v.some_data) in
    rw
      (
        size_read c.line (c.data_bytes ++ (13 ∷ 10 ∷ rest)) v.line_fits,
        chunks,
        ext_passed c.line.ext (c.data_bytes ++ (13 ∷ 10 ∷ rest)) v.line_fits.ext_fits,
        crlf,
        v.counted,
        some_size,
      )
      (data_read (chunks fuel cap) cap out c.data_bytes rest room b)

-- A whole body: the chunks, the size line of the last one, the trailer.
abbrev pub body_text : List Chunk → Line → List Bytes → Bytes → Bytes
body_text [] last ts rest = line_text last (trailer_text ts rest)
body_text (c ∷ cs) last ts rest = chunk_text c (body_text cs last ts rest)

abbrev pub payload : List Chunk → Bytes
payload [] = []
payload (c ∷ cs) = c.data_bytes ++ payload cs

last_read :
    (fuel : ℕ) (cap : Option ℕ) (out : Bytes) (last : Line) (ts : List Bytes) (rest : Bytes)
    → IsLine last
    → size_of last ≡ 0
    → All IsTrailer ts
    → chunks (suc fuel) cap out (line_text last (trailer_text ts rest)) ≡ complete out
unfolding chunks crlf
last_read fuel cap out last ts rest v none_left h =
    rw
      (
        size_read last (trailer_text ts rest) v,
        chunks,
        ext_passed last.ext (trailer_text ts rest) v.ext_fits,
        none_left,
      )
      (trailers_end ts (suc (length (trailer_text ts rest))) out rest h
        (omega (arith, trailers_length ts rest)))

body_read :
    (cs : List Chunk) (fuel : ℕ) (cap : Option ℕ) (out : Bytes) (last : Line) (ts : List Bytes)
    (rest : Bytes)
    → All IsChunk cs
    → IsLine last
    → size_of last ≡ 0
    → All IsTrailer ts
    → Room cap (length out + length (payload cs))
    → length out + length (payload cs) ≤ size_max
    → length cs < fuel
    → chunks fuel cap out (body_text cs last ts rest) ≡ complete (out ++ payload cs)
body_read cs zero cap out last ts rest h v e ht room b hf = absurd (omega arith)
body_read [] (suc fuel) cap out last ts rest h v e ht room b hf =
    last_read fuel cap out last ts rest v e ht ∙ ap complete (sym (append-nil out))
body_read (c ∷ cs) (suc fuel) cap out last ts rest (h, hs) v e ht room b hf =
    let both = length-append c.data_bytes (payload cs) in
    let far = length-append out c.data_bytes in
    chunk_read fuel cap out c (body_text cs last ts rest) h
      (Room-le cap _ _ room (omega (arith, both))) (omega (arith, both))
    ∙ body_read cs fuel cap (out ++ c.data_bytes) last ts rest hs v e ht
        (Room-le cap _ _ room (omega (arith, both, far))) (omega (arith, both, far)) (omega arith)
    ∙ ap complete (append_assoc out c.data_bytes (payload cs))

chunks_length :
    (cs : List Chunk) (last : Line) (ts : List Bytes) (rest : Bytes)
    → length cs ≤ length (body_text cs last ts rest)
chunks_length [] last ts rest = omega arith
chunks_length (c ∷ cs) last ts rest = omega (
  arith,
  chunks_length cs last ts rest,
  length-append c.data_bytes (13 ∷ 10 ∷ body_text cs last ts rest),
  length-append (ext_text c.line.ext)
      (13 ∷ 10 ∷ (c.data_bytes ++ (13 ∷ 10 ∷ body_text cs last ts rest))),
  length-append (hex_text c.line.more)
      (ext_text c.line.ext ++ (13 ∷ 10 ∷ (c.data_bytes ++ (13 ∷ 10 ∷ body_text cs last ts rest)))),
)

-- A well-formed chunked body, with sizes of any number of hexadecimal digits in either case, extensions and
-- trailer fields, is decoded to the data of its chunks in order, whatever follows it, where that data and a NUL fit `out`.
pub decode_chunked_full-body_text :
    (cs : List Chunk) (cap : Option ℕ) (last : Line) (ts : List Bytes) (rest : Bytes)
    → All IsChunk cs
    → IsLine last
    → size_of last ≡ 0
    → All IsTrailer ts
    → Room cap (length (payload cs))
    → length (payload cs) ≤ size_max
    → decode_chunked_full cap (body_text cs last ts rest) ≡ complete (payload cs)
unfolding decode_chunked_full
decode_chunked_full-body_text cs cap last ts rest h v e ht room b =
    body_read cs (suc (length (body_text cs last ts rest))) cap [] last ts rest h v e ht
      (Room-le cap _ _ room (omega arith)) (omega arith)
      (omega (arith, chunks_length cs last ts rest))
