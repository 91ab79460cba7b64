-- ===== src/Command/Arguments.antt =====
-- `add_arguments` of the management command: the orders with their arguments, the types and the
-- defaults, and what `argparse` makes of a command line with them. The help texts are left out.
use spidercheck.Prelude.{
  ℕ, Bool, true, false, List, [], ◌∷◌, Option, none, some, Text, codes, text_eq, if◌then◌else◌, inl,
  inr,
}
use spidercheck.Prelude.Int.{ℤ, pos}
use spidercheck.Prelude.Numerals.{int_of}
use spidercheck.Results.{Outcome, returned, raised, Outcome-cases, chain, command_error}
use spidercheck.Models.{Db}
use spidercheck.Tables.Consistent.{IsConsistent}
use spidercheck.Crawl.{Turn}
use spidercheck.Console.{Console, lift, ◌>>=◌}
use spidercheck.Command.Main.{
  Outside, Order, handle, init_order, reset_order, errors_order, queue_order, last_order,
  delete_order, check_order, recheck_order, status_order, find_order, show_order, plugins_order,
  no_order,
}
use spidercheck.Command.Recheck.{handle-IsConsistent}

-- An option that may be left out has a default; a flag is `store_true`.
pub data Argument : Type 0 where
  option : (name : Text) (is_int : Bool) (default : Text) → Argument
  positional : (name : Text) (is_int : Bool) → Argument
  several : (name : Text) → Argument
  flag : (name : Text) → Argument

abbrev site_name : Argument
site_name = option (codes "name") false (codes "default")

-- The subparsers, in the order in which they are added.
unfoldable pub add_arguments : List (Text × List Argument)
add_arguments =
    (codes "init", site_name ∷ positional (codes "url") false ∷ [])
    ∷ (codes "reset", site_name ∷ [])
    ∷ (codes "errors", site_name ∷ [])
    ∷ (codes "queue", site_name ∷ option (codes "num") true (codes "10") ∷ [])
    ∷ (codes "last", site_name ∷ option (codes "num") true (codes "10") ∷ [])
    ∷ (codes "delete", site_name ∷ several (codes "ids") ∷ [])
    ∷ (
      codes "check",
      site_name
          ∷ option (codes "num") true (codes "1")
          ∷ option (codes "gap") true (codes "2")
          ∷ [],
    )
    ∷ (codes "recheck", option (codes "id") false (codes "0") ∷ site_name ∷ [])
    ∷ (codes "status", site_name ∷ [])
    ∷ (codes "find", positional (codes "pattern") false ∷ site_name ∷ flag (codes "regex") ∷ [])
    ∷ (codes "show", site_name ∷ positional (codes "id_page") true ∷ [])
    ∷ (codes "plugins", [])
    ∷ []

-- What a command line gives for the names of its arguments.
abbrev pub Given : Type 0
Given = Text → Option (List Text)

-- The value of an argument, once `type` has made one of the text.
pub data OptionValue : Type 0 where
  text_value : Text → OptionValue
  int_value : ℤ → OptionValue
  ints_value : List ℤ → OptionValue
  bool_value : Bool → OptionValue

abbrev pub Options : Type 0
Options = List (Text × OptionValue)

int_or_error : Option ℤ → Outcome ℤ
int_or_error none = raised command_error
int_or_error (some n) = returned n

typed : Bool → Text → Outcome OptionValue
unfolding int_or_error int_of
typed true t = chain (int_or_error (int_of t)) λ n. returned (int_value n)
typed false t = returned (text_value t)

all_ints : List Text → Outcome (List ℤ)
unfolding int_or_error int_of
all_ints [] = returned []
all_ints (t ∷ ts) = chain (int_or_error (int_of t)) λ n. chain (all_ints ts) λ ns. returned (n ∷ ns)

-- One text, or the default, which `type` is applied to as well.
one_text : Option (List Text) → Option Text → Outcome Text
one_text (some (t ∷ [])) default = returned t
one_text (some texts) default = raised command_error
one_text none (some default) = returned default
one_text none none = raised command_error

some_texts : Option (List Text) → Outcome (List Text)
some_texts (some (t ∷ ts)) = returned (t ∷ ts)
some_texts other = raised command_error

read_argument : Given → Argument → Outcome (Text × OptionValue)
unfolding typed all_ints one_text some_texts
read_argument given (option name is_int default) =
    chain (one_text (given name) (some default)) λ t. chain (typed is_int t) λ v. returned (name, v)
read_argument given (positional name is_int) =
    chain (one_text (given name) none) λ t. chain (typed is_int t) λ v. returned (name, v)
read_argument given (several name) =
    chain (some_texts (given name)) λ ts. chain (all_ints ts) λ ns. returned (name, ints_value ns)
read_argument given (flag name) =
    returned (name, bool_value (elim (given name) [ none ↦ false | some _ ↦ true ]))

read_arguments : Given → List Argument → Outcome Options
unfolding read_argument
read_arguments given [] = returned []
read_arguments given (a ∷ arguments) =
    let rest = read_arguments given arguments in
    chain (read_argument given a) λ v. chain rest λ vs. returned (v ∷ vs)

arguments_of : List (Text × List Argument) → Text → Outcome (List Argument)
arguments_of [] order = raised command_error
arguments_of ((name, arguments) ∷ rest) order =
    let later = arguments_of rest order in if text_eq name order then returned arguments else later

-- The options of a command line that names an order.
unfoldable pub parse_args : Text → Given → Outcome Options
unfolding read_arguments arguments_of add_arguments
parse_args order given = chain (arguments_of add_arguments order) (read_arguments given)

-- `options[name]`
option_at : Text → Options → OptionValue
option_at name [] = text_value []
option_at name ((n, v) ∷ options) =
    let rest = option_at name options in if text_eq n name then v else rest

text_of : OptionValue → Text
text_of (text_value t) = t
text_of other = []

int_of_value : OptionValue → ℤ
int_of_value (int_value n) = n
int_of_value other = pos 0

ints_of_value : OptionValue → List ℤ
ints_of_value (ints_value ns) = ns
ints_of_value other = []

bool_of : OptionValue → Bool
bool_of (bool_value b) = b
bool_of other = false

-- `set_defaults(func=…)`: the function of the order, with the options that it reads.
order_for : Text → Options → Order
unfolding option_at text_of int_of_value ints_of_value bool_of
order_for order options =
    let name = text_of (option_at (codes "name") options) in
    let num = int_of_value (option_at (codes "num") options) in
    if text_eq order (codes "init")
    then init_order (text_of (option_at (codes "url") options)) name
    else if text_eq order (codes "reset")
    then reset_order name
    else if text_eq order (codes "errors")
    then errors_order name
    else if text_eq order (codes "queue")
    then queue_order name num
    else if text_eq order (codes "last")
    then last_order name num
    else if text_eq order (codes "delete")
    then delete_order name (ints_of_value (option_at (codes "ids") options))
    else if text_eq order (codes "check")
    then check_order name num
    else if text_eq order (codes "recheck")
    then recheck_order (text_of (option_at (codes "id") options)) name
    else if text_eq order (codes "status")
    then status_order
    else if text_eq order (codes "find")
    then (find_order (text_of (option_at (codes "pattern") options)) name
        (bool_of (option_at (codes "regex") options)))
    else if text_eq order (codes "show")
    then show_order name (int_of_value (option_at (codes "id_page") options))
    else plugins_order

-- A command line, with its order, if it names one.
unfoldable pub run_from_argv :
    Outside → Text → Bool → ℕ → (ℕ → Turn) → Option Text → Given → Console Unit
unfolding order_for
run_from_argv o help verbose now turns none given = handle o help verbose now turns no_order
run_from_argv o help verbose now turns (some order) given = do
  options ← lift (parse_args order given)
  handle o help verbose now turns (order_for order options)

pub run_from_argv-IsConsistent :
    (o : Outside) (help : Text) (verbose : Bool) (now : ℕ) (turns : ℕ → Turn) (order : Option Text)
    (given : Given) (db : Db)
    → IsConsistent db
    → IsConsistent (run_from_argv o help verbose now turns order given db).1.1
unfolding run_from_argv
run_from_argv-IsConsistent o help verbose now turns none given db c =
    handle-IsConsistent o help verbose now turns no_order db c
run_from_argv-IsConsistent o help verbose now turns (some order) given db c =
    elim (Outcome-cases (parse_args order given)) [
      | inr (e, stop) ↦ rw stop c
      | inl (options, read') ↦
          rw read' (handle-IsConsistent o help verbose now turns (order_for order options) db c)
    ]
