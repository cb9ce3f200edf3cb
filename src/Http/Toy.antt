-- ===== src/Http/Toy.antt =====
-- An instance of the parameters, for runs and witnesses: header maps as lists of pairs whose values
-- are texts.
use prismproxy.Prelude.{
  String, ◌≡◌, refl, none, some, List, [], ◌∷◌, ◌++◌, arith, if◌then◌else◌, str_eq, eq_iff,
}
use prismproxy.Http.{Http, HttpLaws, first_of_name, or_else}

abbrev without : String → List (String × String) → List (String × String)
without k [] = []
without k ((j, v) ∷ h) = if str_eq j k then without k h else (j, v) ∷ without k h

abbrev pub toy_http : Http
toy_http = record {
  Headers = List (String × String);
  Value = String;
  Uri = String;
  empty = [];
  get = first_of_name;
  insert = λ k v h. (k, v) ∷ without k h;
  append = λ k v h. h ++ (k, v) ∷ [];
  remove = without;
  entries = λ h. h;
  parse_value = some;
  to_str = some;
  path_of = λ u. u;
  show_uri = λ u. u;
}

first-without :
    (k j : String) (h : List (String × String))
    → first_of_name j (without k h) ≡ (if str_eq k j then none else first_of_name j h)
first-without k j [] = ground arith
first-without k j ((i, v) ∷ h) =
    ground (arith, eq_iff i k, eq_iff i j, eq_iff k j, first-without k j h)

first-insert :
    (k j : String) (v : String) (h : List (String × String))
    → first_of_name j ((k, v) ∷ without k h) ≡ (if str_eq k j then some v else first_of_name j h)
first-insert k j v h = ground (arith, first-without k j h)

first-append :
    (k j : String) (v : String) (h : List (String × String))
    → first_of_name j (h ++ (k, v) ∷ [])
      ≡ or_else (first_of_name j h) (if str_eq k j then some v else none)
first-append k j v [] = refl
first-append k j v ((i, w) ∷ h) = ground (arith, first-append k j v h)

pub toy-HttpLaws : HttpLaws toy_http
toy-HttpLaws = record {
  get-empty = λ k. refl;
  get-insert = first-insert;
  get-append = first-append;
  get-remove = first-without;
  get-entries = λ k h. refl;
  parse_visible = λ s visible e. cc;
}
