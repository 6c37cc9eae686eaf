-- ===== src/Paging.antt =====
-- Pages of a history list: internal/mcpserver/paging.go. An instant is in nanoseconds; the zero time of
-- an open bound is `none`. The text of a cursor is made by the base64 and time packages: a parameter.
pub mod Order
pub mod Sorting
pub mod Cut
pub mod Pages
pub mod Cursor
pub mod Range
mod Tests
use quotapulse.Base.{
  ℕ, zero, suc, Bool, true, false, not, ◌&&◌, ◌||◌, Option, none, some, List, [], ◌∷◌, ◌++◌, ltb,
  ◌==◌, if◌then◌else◌, length, is_some,
}
use quotapulse.Base.Int.{ℤ, pos, ltb_ℤ, eqb_ℤ}
use quotapulse.Base.Text.{Text, lt_text}

-- `historyReadLimit`
abbrev pub history_read_limit : ℕ
history_read_limit = 1000

pub record Position : Type 0 where
  pub at : ℕ
  pub id : Text

-- `p.before(q)`: newest first.
unfoldable pub before : Position → Position → Bool
before p q = if not (p.at == q.at) then ltb q.at p.at else lt_text q.id p.id

pub record Window : Type 0 where
  pub since : Option ℕ
  pub until : Option ℕ
  pub after : Option Position

-- `contains`
unfoldable pub in_window : Window → ℕ → Bool
in_window w t =
    (elim w.since [ none ↦ true | some s ↦ not (ltb t s) ])
    && (elim w.until [ none ↦ true | some u ↦ ltb t u ])

pub record Entry (T : Type 0) : Type 0 where
  pub position : Position
  pub item : T

pub record Page (T : Type 0) : Type 0 where
  pub items : List T
  pub next : Option Position
  pub truncated : Bool

abbrev pub origin : Position
origin = record { at = 0; id = [] }

-- The row is behind the last one of the page before, if there was one.
unfoldable pub past_cursor : Option Position → Position → Bool
past_cursor none p = true
past_cursor (some c) p = before c p

module _ {T : Type 0} where
  -- The test that passes an entry over, turned round.
  unfoldable pub is_shown : Window → Entry T → Bool
  is_shown w e = in_window w e.position.at && past_cursor w.after e.position

  -- `sort.SliceStable` by `before`: an entry stays ahead of those that it is not behind.
  unfoldable pub insert : Entry T → List (Entry T) → List (Entry T)
  insert e [] = e ∷ []
  insert e (d ∷ ds) =
      let rest = insert e ds in if before d.position e.position then d ∷ rest else e ∷ d ∷ ds

  unfoldable pub sort_entries : List (Entry T) → List (Entry T)
  sort_entries [] = []
  sort_entries (e ∷ es) = insert e (sort_entries es)

  -- The loop of `paginate`.
  unfoldable pub page_loop : Window → ℕ → Bool → List (Entry T) → List T → Position → Page T
  page_loop w limit capped [] items last = record { items = items; next = none; truncated = capped }
  page_loop w limit capped (e ∷ es) items last =
      let passed = page_loop w limit capped es items last in
      let taken = page_loop w limit capped es (items ++ e.item ∷ []) e.position in
      if not (is_shown w e)
      then passed
      else if length items == limit
      then record { items = items; next = some last; truncated = false }
      else taken

  unfoldable pub paginate : List (Entry T) → Window → ℕ → Bool → Page T
  paginate entries w limit capped = page_loop w limit capped (sort_entries entries) [] origin

-- `bounded` of internal/mcpserver/server.go, which every limit goes through.
unfoldable pub bounded : ℤ → ℤ → ℤ → ℤ → ℤ
bounded value fallback low high =
    if eqb_ℤ value (pos 0)
    then fallback
    else if ltb_ℤ value low
    then low
    else if ltb_ℤ high value
    then high
    else value
