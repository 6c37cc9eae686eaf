-- ===== src/Paging/Cursor.antt =====
-- The text of a cursor: `encodeCursor` and `decodeCursor` of internal/mcpserver/paging.go.
use quotapulse.Base.{
  ℕ, ◌≡◌, ◌≢◌, inl, inr, refl, Option, none, some, [], ◌∷◌, ◌++◌, All, ◌==◌, if◌then◌else◌,
  Bool-cases, arith,
}
use quotapulse.Base.Text.{Text}
use quotapulse.Paging.{Position}

-- What the code calls of encoding/base64 and time: RawURLEncoding, and RFC3339Nano in UTC.
pub record Codec : Type 0 where
  pub write_time : ℕ → Text
  pub read_time : Text → Option ℕ
  pub write_base64 : Text → Text
  pub read_base64 : Text → Option Text

-- The byte `|`.
abbrev bar : ℕ
bar = 124

-- Reading takes back writing, and a time is written without a bar.
pub record CodecLaws (C : Codec) : Type 0 where
  pub time_read : (t : ℕ) → C.read_time (C.write_time t) ≡ some t
  pub base64_read : (s : Text) → C.read_base64 (C.write_base64 s) ≡ some s
  pub no_bar : (t : ℕ) → All (λ c. c ≢ bar) (C.write_time t)

-- `strings.Cut(s, "|")`
unfoldable pub cut_bar : Text → Option (Text × Text)
cut_bar [] = none
cut_bar (c ∷ cs) =
    let rest = cut_bar cs in
    if c == bar then some ([], cs) else elim rest [ none ↦ none | some (a, b) ↦ some (c ∷ a, b) ]

module _ (C : Codec) where
  unfoldable pub encode_cursor : Position → Text
  encode_cursor p = C.write_base64 (C.write_time p.at ++ bar ∷ p.id)

  unfoldable pub read_position : Text → Option Position
  read_position body = elim (cut_bar body) [
    | none ↦ none
    | some (at, id) ↦ elim (C.read_time at) [
      | none ↦ none
      | some t ↦ some record { at = t; id = id }
    ]
  ]

  unfoldable pub decode_cursor : Text → Option Position
  decode_cursor raw = elim (C.read_base64 raw) [ none ↦ none | some body ↦ read_position body ]

cut_bar-append : (s id : Text) → All (λ c. c ≢ bar) s → cut_bar (s ++ bar ∷ id) ≡ some (s, id)
unfolding cut_bar
cut_bar-append [] id h = refl
cut_bar-append (c ∷ cs) id h = elim (Bool-cases (c == bar)) [
  | inl e ↦ ground (arith, h, e)
  | inr e ↦ rw (e, cut_bar-append cs id h.1) refl
]

read_position-append :
    (C : Codec) (L : CodecLaws C) (p : Position)
    → read_position C (C.write_time p.at ++ bar ∷ p.id) ≡ some p
unfolding read_position
read_position-append C L p =
    rw (read_position, cut_bar-append (C.write_time p.at) p.id (L.no_bar p.at), L.time_read p.at)
      refl

-- A cursor that the tool made is read back as the position it was made from, if base64 and RFC 3339
-- read back what they write and a time has no `|`.
pub decode_cursor-encode_cursor :
    (C : Codec) (L : CodecLaws C) (p : Position) → decode_cursor C (encode_cursor C p) ≡ some p
unfolding decode_cursor encode_cursor
decode_cursor-encode_cursor C L p =
    rw (L.base64_read (C.write_time p.at ++ bar ∷ p.id), decode_cursor) (read_position-append C L p)
