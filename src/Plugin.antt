-- ===== src/Plugin.antt =====
-- plugin.rs: the plugin chain of a route. wasmtime is the parameter `Wasm`: an instance stands for
-- the instantiated module with its store, which every plugin of every request gets afresh. A call
-- of `on_request` is taken to end: the source sets no limit on it.
pub mod Chain
pub mod Faults
pub mod Layout
pub mod Toy
mod Tests
use prismproxy.Prelude.{
  ℕ, ◌+◌, ◌≤◌, ◌<◌, ◌-◌, ◌%◌, ◌^◌, ◌≡◌, String, Bool, true, false, not, ◌&&◌, Option, none, some,
  List, [], ◌∷◌, ◌++◌, format, show, as_bytes, length, get_elem?, ltb, leb, ◌==◌, if◌then◌else◌,
  Result, ok, err, map_err, ◌>>=◌, ◌>>◌,
}
use prismproxy.Errors.{ProxyError, plugin}

-- What the program uses of wasmtime. A failure is the text of the error. An `i32` is its bit pattern.
pub record Wasm : Type 1 where
  pub Module : Type 0
  pub Instance : Type 0
  pub Func : Type 0
  -- `Module::from_file`
  pub compile : String → Result Module String
  -- `Linker::instantiate` in a new `Store`
  pub instantiate : Module → Result Instance String
  -- `get_memory("memory")` finds a memory
  pub has_memory : Instance → Bool
  -- `Memory::write` at an offset
  pub write : Instance → ℕ → List ℕ → Result Instance String
  -- The byte of the memory at an address, for statements about `write`.
  pub read : Instance → ℕ → Option ℕ
  -- `get_typed_func("on_request")`
  pub get_on_request : Instance → Result Func String
  -- `TypedFunc::call`
  pub call : Func → Instance → (a b c d : ℕ) → Result ℕ String

abbrev as_i32 : ℕ → ℕ
as_i32 n = n % 2 ^ 32

abbrev pub max_method : ℕ
max_method = 256

-- Where the host puts the path.
abbrev pub path_offset : ℕ
path_offset = 256

module _ (wasm : Wasm) where
  open wasm use {
    Module, Instance, Func, compile, instantiate, has_memory, write, get_on_request, call,
  }

  pub record Plugin : Type 0 where
    pub name : String
    pub module_code : Module

  -- `PluginRuntime`; its engine and linker are part of `wasm`.
  pub record PluginRuntime : Type 0 where
    pub plugins : List Plugin

  -- `PluginRuntime::new`
  abbrev pub new_runtime : PluginRuntime
  new_runtime = record { plugins = [] }

  abbrev name_or_unknown : Option String → String
  name_or_unknown none = "unknown"
  name_or_unknown (some stem) = stem

  module _ (file_stem : String → Option String) where
    -- `Plugin::from_file`
    unfoldable pub from_file : String → Result Plugin ProxyError
    from_file path = do
      code ← map_err (λ e. plugin (format ("compile '" ∷ path ∷ "': " ∷ e ∷ []))) (compile path)
      ok (record { name = name_or_unknown (file_stem path); module_code = code })

    -- `PluginRuntime::load`
    unfoldable pub load : String → PluginRuntime → Result PluginRuntime ProxyError
    unfolding from_file
    load path runtime = do
      loaded ← from_file path
      ok (record runtime { plugins = runtime.plugins ++ loaded ∷ [] })

  -- An error that names the plugin between two texts.
  abbrev pub fault : String → Plugin → String → ProxyError
  fault before p after = plugin (format (before ∷ p.name ∷ after ∷ []))

  abbrev pub require_memory : Plugin → Instance → Result (Unit {0}) ProxyError
  require_memory p i = if has_memory i then ok tt else err (fault "'" p "' missing 'memory' export")

  -- One round of the loop of `run_on_request`: whether the plugin blocks.
  unfoldable pub run_plugin : String → String → Plugin → Result Bool ProxyError
  run_plugin method path p =
      let method_bytes = as_bytes method in
      let path_bytes = as_bytes path in
      if ltb max_method (length method_bytes)
      then err (
          fault "'" p (
            format ("': method too long (" ∷ show (length method_bytes) ∷ " bytes, max 256)" ∷ [])))
      else (do
        instance_0 ←
            map_err (λ e. fault "instantiate '" p (format ("': " ∷ e ∷ [])))
              (instantiate p.module_code)
        require_memory p instance_0
        instance_1 ←
            map_err (λ e. fault "write method for '" p (format ("': " ∷ e ∷ [])))
              (write instance_0 0 method_bytes)
        instance_2 ←
            map_err (λ e. fault "write path for '" p (format ("': " ∷ e ∷ [])))
              (write instance_1 path_offset path_bytes)
        on_request ←
            map_err (λ e. fault "'" p (format ("' missing 'on_request' export: " ∷ e ∷ [])))
              (get_on_request instance_2)
        result ←
            map_err (λ e. fault "'" p (format ("' on_request trap: " ∷ e ∷ [])))
              (call on_request instance_2 0 (as_i32 (length method_bytes)) path_offset
                (as_i32 (length path_bytes)))
        ok (not (result == 0)))

  -- The loop of `run_on_request`.
  unfoldable pub run_all : String → String → List Plugin → Result Bool ProxyError
  run_all method path [] = ok false
  run_all method path (p ∷ ps) =
      let later = run_all method path ps in
      run_plugin method path p >>= λ blocks. if blocks then ok true else later

  -- `PluginRuntime::run_on_request`
  unfoldable pub run_on_request : PluginRuntime → String → String → Result Bool ProxyError
  unfolding run_all
  run_on_request runtime method path = run_all method path runtime.plugins

-- `Memory::write` copies the bytes to the offset and leaves the rest of the memory alone.
pub record WriteLaw (wasm : Wasm) : Type 0 where
  pub written :
      (i j : wasm.Instance) (offset : ℕ) (bytes : List ℕ) (address : ℕ)
      → wasm.write i offset bytes ≡ ok j
      → wasm.read j address ≡ (
          if leb offset address && ltb address (offset + length bytes)
          then get_elem? bytes (address - offset)
          else wasm.read i address)
