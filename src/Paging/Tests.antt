-- ===== src/Paging/Tests.antt =====
-- Three rows, read two to a page, and a cursor in a small encoding of times.
use quotapulse.Base.{ℕ, zero, suc, ◌≡◌, ◌≢◌, refl, ap, false, none, some, List, [], ◌∷◌, All, arith}
use quotapulse.Base.Int.{pos}
use quotapulse.Base.Text.{Text}
use quotapulse.Paging.{Position, Window, Entry, before, in_window, insert, sort_entries}
use quotapulse.Paging.Sorting.{IsDistinct}
use quotapulse.Paging.Pages.{follow, follow_reads_window}
use quotapulse.Paging.Cursor.{
  Codec, CodecLaws, encode_cursor, decode_cursor, decode_cursor-encode_cursor,
}
use quotapulse.Paging.Range.{TimeRange, Times, parse_range, IsParse, parse_range-IsParse}

abbrev row : ℕ → Entry ℕ
row t = record { position = record { at = t; id = [] }; item = t }

abbrev rows : List (Entry ℕ)
rows = row 20 ∷ row 30 ∷ row 10 ∷ row 5 ∷ []

abbrev whole : Window
whole = record { since = some 10; until = none; after = none }

apart : (m n : ℕ) → m ≢ n → (row m).position ≢ (row n).position
apart m n ne q = ne (ap (λ p. p.at) q)

rows-IsDistinct : IsDistinct rows
unfolding IsDistinct
rows-IsDistinct = (
  (apart 20 30 (omega arith), (apart 20 10 (omega arith), (apart 20 5 (omega arith), tt))),
  (
    (apart 30 10 (omega arith), (apart 30 5 (omega arith), tt)),
    ((apart 10 5 (omega arith), tt), (tt, tt)),
  ),
)

follow_reads_window_example : follow 5 rows whole 2 false ≡ 30 ∷ 20 ∷ 10 ∷ []
unfolding sort_entries insert before in_window
follow_reads_window_example =
    follow_reads_window rows whole 2 false 5 rows-IsDistinct refl (omega arith) (omega arith)

abbrev tally : ℕ → Text
tally zero = []
tally (suc n) = 49 ∷ tally n

abbrev count : Text → ℕ
count [] = 0
count (c ∷ cs) = suc (count cs)

count-tally : (n : ℕ) → count (tally n) ≡ n
count-tally zero = refl
count-tally (suc n) = ap suc (count-tally n)

no_bar-tally : (n : ℕ) → All (λ c. c ≢ 124) (tally n)
no_bar-tally zero = tt
no_bar-tally (suc n) = (omega arith, no_bar-tally n)

abbrev plain : Codec
plain = record {
  write_time = tally;
  read_time = λ s. some (count s);
  write_base64 = λ s. s;
  read_base64 = λ s. some s;
}

plain-CodecLaws : CodecLaws plain
plain-CodecLaws = record {
  time_read = λ t. ap some (count-tally t);
  base64_read = λ s. refl;
  no_bar = no_bar-tally;
}

abbrev third_row : Position
third_row = record { at = 3; id = 124 ∷ 65 ∷ [] }

decode_cursor-encode_cursor_example :
    decode_cursor plain (encode_cursor plain third_row) ≡ some third_row
decode_cursor-encode_cursor_example = decode_cursor-encode_cursor plain plain-CodecLaws third_row

abbrev ask : TimeRange
ask = record { since = 49 ∷ 49 ∷ []; until = []; days = pos 0; cursor = 49 ∷ 124 ∷ 50 ∷ [] }

abbrev clock : Times
clock = record { read_time = λ s. some (count s); read_date = λ s. none; next_day = λ t. t }

parse_range-IsParse_example :
    IsParse plain clock ask 86400000000005 (parse_range plain clock ask 86400000000005)
parse_range-IsParse_example = parse_range-IsParse plain clock ask 86400000000005
