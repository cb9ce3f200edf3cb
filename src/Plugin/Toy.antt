-- ===== src/Plugin/Toy.antt =====
-- plugin.rs's parameter `Wasm` over four small modules, in one page of memory.
use prismproxy.Prelude.{
  ℕ, ◌+◌, ◌-◌, ◌≡◌, String, Bool, true, false, ◌&&◌, Option, none, some, List, arith, Result, ok,
  err, length, get_elem?, ltb, leb, ◌==◌, if◌then◌else◌,
}
use prismproxy.Plugin.{Wasm, WriteLaw, Plugin}

pub data ToyModule : Type 0 where
  pass_all block_all method_check no_memory : ToyModule

pub record ToyInstance : Type 0 where
  pub code : ToyModule
  pub memory : ℕ → Option ℕ

abbrev compile_toy : String → Result ToyModule String
compile_toy path = ok pass_all

abbrev has_memory_toy : ToyInstance → Bool
has_memory_toy i = elim i.code [ no_memory ↦ false | _ ↦ true ]

abbrev write_toy : ToyInstance → ℕ → List ℕ → Result ToyInstance String
write_toy i offset bytes =
    if leb (offset + length bytes) 65536
    then ok (record i {
      memory = λ a.
          if leb offset a && ltb a (offset + length bytes)
          then get_elem? bytes (a - offset)
          else i.memory a;
    })
    else err "out of bounds memory access"

-- 1 if the byte is a `G`, as the plugin of the unit test answers.
abbrev is_g : Option ℕ → ℕ
is_g none = 0
is_g (some b) = if b == b'G' then 1 else 0

abbrev call_toy : Unit {0} → ToyInstance → (a b c d : ℕ) → Result ℕ String
call_toy f i a b c d = elim i.code [
  | pass_all ↦ ok 0
  | block_all ↦ ok 1
  | method_check ↦ ok (is_g (i.memory a))
  | no_memory ↦ ok 0
]

abbrev pub toy : Wasm
toy = record {
  Module = ToyModule;
  Instance = ToyInstance;
  Func = Unit {0};
  compile = compile_toy;
  instantiate = λ m. ok (record { code = m; memory = λ a. none });
  has_memory = has_memory_toy;
  write = write_toy;
  read = λ i. i.memory;
  get_on_request = λ i. ok tt;
  call = call_toy;
}

write_toy-written :
    (i j : ToyInstance) (offset : ℕ) (bytes : List ℕ) (address : ℕ)
    → write_toy i offset bytes ≡ ok j
    → j.memory address ≡ (
        if leb offset address && ltb address (offset + length bytes)
        then get_elem? bytes (address - offset)
        else i.memory address)
write_toy-written i j offset bytes address e = ground arith

pub toy-WriteLaw : WriteLaw toy
toy-WriteLaw = record { written = write_toy-written }

abbrev pub plugin_of : String → ToyModule → Plugin toy
plugin_of name code = record { name = name; module_code = code }
