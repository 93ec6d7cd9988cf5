-- ===== src/Snapshots/Nodetool.antt =====
-- cassandra-snapshot/pkg/nodetool/nodetool.go: the nodetool commands that are run in a pod.
pub mod Lines
use Prim.Native.Char.{Char, code}
use cassandra_operator.Base.{
  ◌≡◌, refl, ◌==◌, String, ◌==◌, Bool, ◌&&◌, ◌||◌, Option, none, some, List, [], ◌∷◌, ◌++◌,
  if◌then◌else◌, leb, eqb, Result, ok, err, ◌>>=◌,
}
use cassandra_operator.Base.Int.{ℤ}
use cassandra_operator.Base.Text.{show_ℤ, join, concat}
use cassandra_operator.Snapshots.{Listing, is_digit}

-- What the tool reads of a pod.
pub record PodName : Type 0 where
  pub name : String
  pub namespace : String

-- How executing a command in a pod ends: no executor can be made, or the command's outputs with the
-- error of the stream, and its exit status if the command exited.
pub data Execution : Type 0 where
  refused : String → Execution
  streamed : String → String → Option (String × Option ℤ) → Execution

-- The Kubernetes client of the tool, over a state of its own.
pub record Client : Type 1 where
  pub State : Type 0
  pub list_pods : String → String → State → Result String (List PodName) × State
  pub execute : PodName → ℤ → List String → State → Execution × State

-- The result of runCommand, by what the execution gives.
unfoldable pub command_result : List String → Execution → Result String String
unfolding join concat show_ℤ
command_result args (refused e) = err e
command_result args (streamed out errors (some (e, some status))) = err (
    concat (
      "`"
      ∷ join args " "
      ∷ "` failed with exit code "
      ∷ show_ℤ status
      ∷ ": "
      ∷ e
      ∷ ". stdout: "
      ∷ out
      ∷ ". sterr: "
      ∷ errors
      ∷ []))
command_result args (streamed out errors (some (e, none))) = err (
    concat (
      "`"
      ∷ join args " "
      ∷ "` failed with unknown exit code: "
      ∷ e
      ∷ ". stdout: "
      ∷ out
      ∷ ". sterr: "
      ∷ errors
      ∷ []))
command_result args (streamed out errors none) =
    if errors == ""
    then ok out
    else err
        (concat ("`" ∷ join args " " ∷ "` failed with stdout: " ∷ out ∷ ". sterr: " ∷ errors ∷ []))

-- strings.Split at a line feed.
unfoldable pub on_first : (String → String) → List String → List String
on_first f [] = f "" ∷ []
on_first f (line ∷ lines) = f line ∷ lines

unfoldable pub split_lines : String → List String
unfolding on_first
split_lines String.[] = "" ∷ []
split_lines (String.◌∷◌ c s) =
    let rest = split_lines s in
    if eqb (code c) 10 then "" ∷ rest else on_first (λ line. String.◌∷◌ c line) rest

-- The character classes of the regular expression: \w, and the space.
unfoldable pub is_word : Char → Bool
unfolding is_digit
is_word c =
    is_digit c
    || (leb 65 (code c) && leb (code c) 90)
    || (leb 97 (code c) && leb (code c) 122)
    || eqb (code c) 95

unfoldable pub is_space : Char → Bool
is_space c = eqb (code c) 32

-- The longest prefix of such characters, and what follows it.
unfoldable pub span : (Char → Bool) → String → String × String
span p String.[] = ("", "")
span p (String.◌∷◌ c s) =
    let rest = span p s in if p c then (String.◌∷◌ c rest.0, rest.1) else ("", String.◌∷◌ c s)

-- One or more of such characters. The classes that follow one another in the expression are disjoint,
-- so that the longest match is the only one that the rest can follow.
unfoldable pub some_of : (Char → Bool) → String → Option (String × String)
unfolding span
some_of p s = let r = span p s in if r.0 == "" then none else some r

-- ^(\d+) +(\w+) +(\w+)
unfoldable pub parse_line : String → Option Listing
unfolding some_of is_digit is_space is_word
parse_line line = do
  name ← some_of is_digit line
  gap ← some_of is_space name.1
  keyspace ← some_of is_word gap.1
  second_gap ← some_of is_space keyspace.1
  column_family ← some_of is_word second_gap.1
  some (record { name = name.0; keyspace = keyspace.0; column_family = column_family.0 })

unfoldable pub prepend_parsed : Option Listing → List Listing → List Listing
prepend_parsed none found = found
prepend_parsed (some s) found = s ∷ found

unfoldable pub parse_lines : List String → List Listing
unfolding parse_line prepend_parsed
parse_lines [] = []
parse_lines (line ∷ lines) = prepend_parsed (parse_line line) (parse_lines lines)

unfoldable pub filtered_listing :
    PodName → (List Listing → List Listing) → Result String String → Result String (List Listing)
unfolding parse_lines split_lines concat
filtered_listing pod filter (err e) =
    err (concat ("error while listing snapshots on pod " ∷ pod.name ∷ ": " ∷ e ∷ []))
filtered_listing pod filter (ok output) = ok (filter (parse_lines (split_lines output)))

module _ (C : Client) where
  unfoldable pub run_command : PodName → ℤ → List String → C.State → Result String String × C.State
  unfolding command_result
  run_command pod timeout args s =
      let (e, t) = C.execute pod timeout args s in (command_result args e, t)

  unfoldable pub create_snapshot :
      ℤ → List String → PodName → ℤ → C.State → Result String String × C.State
  unfolding run_command show_ℤ
  create_snapshot timestamp keyspaces pod timeout s =
      run_command pod timeout
        (("nodetool" ∷ "snapshot" ∷ "-t" ∷ show_ℤ timestamp ∷ []) ++ keyspaces) s

  unfoldable pub get_snapshots :
      PodName → ℤ → (List Listing → List Listing) → C.State → Result String (List Listing) × C.State
  unfolding run_command filtered_listing
  get_snapshots pod timeout filter s =
      let (r, t) = run_command pod timeout ("nodetool" ∷ "listsnapshots" ∷ []) s in
      (filtered_listing pod filter r, t)

  unfoldable pub delete_snapshot : PodName → Listing → ℤ → C.State → Result String String × C.State
  unfolding run_command
  delete_snapshot pod snapshot timeout s =
      run_command pod timeout
        ("nodetool" ∷ "clearsnapshot" ∷ "-t" ∷ snapshot.name ∷ "--" ∷ snapshot.keyspace ∷ []) s

parse_runs :
    parse_lines (split_lines "Snapshot Details:\n1541 system_auth roles 1 KiB\nname k c")
    ≡ record { name = "1541"; keyspace = "system_auth"; column_family = "roles" } ∷ []
unfolding parse_lines split_lines ◌==◌
parse_runs = refl
