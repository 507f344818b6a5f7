-- ===== src/FilePath.antt =====
-- `path.join` and `path.resolve` of Node, on POSIX, as far as the scripts use them. `cwd` is the
-- working directory, an absolute path.
use vinuchain_lists.Prelude.{
  Bool, true, false, ◌||◌, List, [], ◌∷◌, ◌++◌, reverse, Text, codes, text_eq, ◌==◌, if◌then◌else◌,
}

-- The pieces between slashes.
unfoldable pub split_slash : Text → Text → List Text
split_slash piece [] = reverse piece ∷ []
split_slash piece (c ∷ t) =
    let closed = reverse piece ∷ split_slash [] t in
    let longer = split_slash (c ∷ piece) t in if c == b'/' then closed else longer

abbrev is_dot : Text → Bool
is_dot piece = text_eq piece [] || text_eq piece (codes ".")

abbrev pop : List Text → List Text
pop [] = []
pop (top ∷ stack) = stack

-- An absolute path's pieces, with `.` and `..` resolved; the stack has the last piece on top.
unfoldable pub resolve_pieces : List Text → List Text → List Text
unfolding text_eq
resolve_pieces stack [] = reverse stack
resolve_pieces stack (piece ∷ pieces) =
    resolve_pieces
      (if is_dot piece
        then stack
        else if text_eq piece (codes "..")
        then pop stack
        else piece ∷ stack)
      pieces

-- A relative path keeps the `..` that lead above its start.
abbrev pop_above : List Text → List Text
pop_above [] = codes ".." ∷ []
pop_above (top ∷ stack) = if text_eq top (codes "..") then codes ".." ∷ (top ∷ stack) else stack

unfoldable pub normal_pieces : List Text → List Text → List Text
unfolding text_eq
normal_pieces stack [] = reverse stack
normal_pieces stack (piece ∷ pieces) =
    normal_pieces
      (if is_dot piece
        then stack
        else if text_eq piece (codes "..")
        then pop_above stack
        else piece ∷ stack)
      pieces

unfoldable pub with_slashes : List Text → Text
with_slashes [] = []
with_slashes (piece ∷ pieces) = b'/' ∷ (piece ++ with_slashes pieces)

abbrev pub is_absolute : Text → Bool
is_absolute [] = false
is_absolute (c ∷ t) = c == b'/'

abbrev tail_text : Text → Text
tail_text [] = []
tail_text (c ∷ t) = t

abbrev ends_in_slash : Text → Bool
ends_in_slash t = is_absolute (reverse t)

unfoldable pub root_or : Text → Text
root_or [] = codes "/"
root_or (c ∷ t) = c ∷ t

-- `path.resolve(t)`
unfoldable pub resolve : Text → Text → Text
unfolding split_slash resolve_pieces with_slashes root_or
resolve cwd t =
    let whole = if is_absolute t then t else cwd ++ b'/' ∷ t in
    root_or (with_slashes (resolve_pieces [] (split_slash [] whole)))

or_dot : Text → Text
or_dot [] = codes "."
or_dot (c ∷ t) = c ∷ t

with_end : Bool → Text → Text
with_end true t = t ++ codes "/"
with_end false t = t

-- `path.normalize` of a text that is not empty
unfoldable pub normalize : Text → Text
unfolding split_slash resolve_pieces normal_pieces with_slashes or_dot with_end
normalize t =
    let inner =
      if is_absolute t
      then resolve_pieces [] (split_slash [] t)
      else normal_pieces [] (split_slash [] t) in
    let body = tail_text (with_slashes inner) in
    let absolute = codes "/" ++ (if text_eq body [] then [] else with_end (ends_in_slash t) body) in
    let relative =
      if text_eq body []
      then codes "." ++ (if ends_in_slash t then codes "/" else [])
      else with_end (ends_in_slash t) body in
    if is_absolute t then absolute else relative

unfoldable pub join_nonempty : Text → List Text → Text
join_nonempty joined [] = joined
join_nonempty joined (part ∷ parts) =
    join_nonempty
      (if text_eq part []
        then joined
        else if text_eq joined []
        then part
        else joined ++ b'/' ∷ part)
      parts

-- `path.join(base, ...parts)`
unfoldable pub join : Text → List Text → Text
unfolding join_nonempty normalize text_eq
join base parts =
    let joined = join_nonempty [] (base ∷ parts) in
    if text_eq joined [] then codes "." else normalize joined
