-- ===== src/Go/Path.antt =====
-- Package `path/filepath` on Unix: `Clean`, `Join`, `Dir`, `Abs`.
pub mod Parts
pub mod Replay
pub mod Spelling
use field_docket.Base.{
  ℕ, Bool, true, false, List, [], ◌∷◌, ◌++◌, reverse, Bytes, codes, ◌==◌, if◌then◌else◌,
}
use field_docket.Base.Compare.{same}
use field_docket.Go.Errors.{Result, ok, ◌>>=◌}
use field_docket.Go.Text.{join_with, is_empty}

abbrev pub slash : ℕ
slash = b'/'

abbrev pub dot : Bytes
dot = codes "."

abbrev pub dot_dot : Bytes
dot_dot = codes ".."

abbrev pub prepend : ℕ → List Bytes → List Bytes
prepend c [] = (c ∷ []) ∷ []
prepend c (p ∷ ps) = (c ∷ p) ∷ ps

-- The parts between the slashes; there is one more of them than there are slashes.
unfoldable pub split_path : Bytes → List Bytes
split_path [] = [] ∷ []
split_path (c ∷ s) =
    let rest = split_path s in elim (c == slash) [ true ↦ [] ∷ rest | false ↦ prepend c rest ]

-- `Clean` takes a path part by part; the parts kept so far stand in reverse.
unfoldable pub pop : Bool → List Bytes → List Bytes
pop true [] = []
pop false [] = dot_dot ∷ []
pop rooted (top ∷ kept) = elim (same top dot_dot) [ true ↦ dot_dot ∷ top ∷ kept | false ↦ kept ]

-- What a part does to them: an empty one and `.` nothing, `..` takes one back.
unfoldable pub push : Bool → List Bytes → Bytes → List Bytes
push rooted kept part = elim (is_empty part) [
  | true ↦ kept
  | false ↦ elim (same part dot) [
    | true ↦ kept
    | false ↦ elim (same part dot_dot) [ true ↦ pop rooted kept | false ↦ part ∷ kept ]
  ]
]

unfoldable pub push_all : Bool → List Bytes → List Bytes → List Bytes
push_all rooted kept [] = kept
push_all rooted kept (part ∷ parts) = push_all rooted (push rooted kept part) parts

unfoldable pub is_rooted : Bytes → Bool
is_rooted [] = false
is_rooted (c ∷ s) = c == slash

-- The parts that a path keeps, in order.
unfoldable pub parts_of : Bytes → List Bytes
parts_of path = reverse (push_all (is_rooted path) [] (split_path path))

unfoldable pub render : Bool → List Bytes → Bytes
render true parts = slash ∷ join_with (slash ∷ []) parts
render false [] = dot
render false (p ∷ ps) = join_with (slash ∷ []) (p ∷ ps)

unfoldable pub clean : Bytes → Bytes
clean path = render (is_rooted path) (parts_of path)

-- `filepath.Join`: leading empty elements do not count.
unfoldable pub join_path : List Bytes → Bytes
join_path [] = []
join_path (e ∷ es) = elim (is_empty e) [
  | true ↦ join_path es
  | false ↦ clean (join_with (slash ∷ []) (e ∷ es))
]

-- The text up to the last slash, with it.
unfoldable pub up_to_slash : Bytes → Bytes
up_to_slash [] = []
up_to_slash (c ∷ s) =
    let rest = up_to_slash s in
    elim (is_empty rest) [
      | true ↦ elim (c == slash) [ true ↦ c ∷ [] | false ↦ [] ]
      | false ↦ c ∷ rest
    ]

unfoldable pub dir : Bytes → Bytes
dir path = clean (up_to_slash path)

-- `filepath.Abs`; `cwd` is what `os.Getwd` returns.
unfoldable pub abs : Result Bytes → Bytes → Result Bytes
abs cwd path = elim (is_rooted path) [
  | true ↦ ok (clean path)
  | false ↦ do d ← cwd; ok (join_path (d ∷ path ∷ []))
]
