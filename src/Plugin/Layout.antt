-- ===== src/Plugin/Layout.antt =====
-- What a plugin of plugin.rs finds in its memory.
use prismproxy.Prelude.{
  ℕ, ◌+◌, ◌-◌, ◌≤◌, ◌<◌, ◌%◌, ◌^◌, ◌≡◌, ◌∙◌, String, Bool, true, not, List, arith, ok, inl, inr,
  as_bytes, length, get_elem?, ltb, ◌==◌, Bool-cases, >>=-eq-ok, map_err-eq-ok,
}
use prismproxy.Plugin.{Wasm, WriteLaw, Plugin, require_memory, run_plugin, max_method, path_offset}

module _ (wasm : Wasm) where
  -- The bytes stand in the memory from the offset on.
  abbrev pub Holds : wasm.Instance → ℕ → List ℕ → Type 0
  Holds i offset bytes = (k : ℕ) → k < length bytes → wasm.read i (offset + k) ≡ get_elem? bytes k

  -- The call, on an instance of the plugin's module, by which it answers `blocks`.
  pub record Answered (method path : String) (p : Plugin wasm) (blocks : Bool) : Type 0 where
    pub made : wasm.Instance
    pub with_method : wasm.Instance
    pub instance_at_call : wasm.Instance
    pub instantiated : wasm.instantiate p.module_code ≡ ok made
    pub has_memory : wasm.has_memory made ≡ true
    pub wrote_method : wasm.write made 0 (as_bytes method) ≡ ok with_method
    pub wrote_path : wasm.write with_method path_offset (as_bytes path) ≡ ok instance_at_call
    pub function : wasm.Func
    pub exported : wasm.get_on_request instance_at_call ≡ ok function
    pub result : ℕ
    pub called :
        wasm.call function instance_at_call 0
          (length (as_bytes method) % 2 ^ 32)
          path_offset
          (length (as_bytes path) % 2 ^ 32)
        ≡ ok result
    pub answer : blocks ≡ not (result == 0)
    pub short : length (as_bytes method) ≤ max_method
    pub method_held : Holds instance_at_call 0 (as_bytes method)
    pub path_held : Holds instance_at_call path_offset (as_bytes path)

  module _ (law : WriteLaw wasm) (method path : String) where
    written_path :
        (i j : wasm.Instance) (offset : ℕ) (bytes : List ℕ)
        → wasm.write i offset bytes ≡ ok j
        → Holds j offset bytes
    written_path i j offset bytes e k h =
        let same : offset + k - offset ≡ k = omega arith in
        law.written i j offset bytes (offset + k) e ∙ ground arith

    kept_method :
        (i j : wasm.Instance) (method_bytes path_bytes : List ℕ)
        → length method_bytes ≤ max_method
        → wasm.write i path_offset path_bytes ≡ ok j
        → Holds i 0 method_bytes
        → Holds j 0 method_bytes
    kept_method i j method_bytes path_bytes short e held k h =
        law.written i j path_offset path_bytes (0 + k) e ∙ ground (arith, held k h)

    required :
        (p : Plugin wasm) (i : wasm.Instance) (u : Unit {0})
        → require_memory wasm p i ≡ ok u
        → wasm.has_memory i ≡ true
    required p i u h = elim (Bool-cases (wasm.has_memory i)) [
      | inl there ↦ there
      | inr missing ↦ absurd (cc (h, missing))
    ]

    -- Under the law of `Memory::write`: a plugin gives a verdict only by a call of the `on_request`
    -- that an instance of its own module exports, on that instance, which has a memory, with the
    -- offsets and lengths of the documented layout, of a method of at most 256 bytes; at that call
    -- the memory holds the bytes of the method from 0 and those of the path from 256 on, and the
    -- plugin blocks exactly if the result is not 0.
    pub run_plugin-Answered :
        (p : Plugin wasm) (blocks : Bool)
        → run_plugin wasm method path p ≡ ok blocks
        → Answered method path p blocks
    unfolding run_plugin
    run_plugin-Answered p blocks h = elim (Bool-cases (ltb max_method (length (as_bytes method)))) [
      | inl long ↦ absurd (ground arith)
      | inr short ↦
          let fits : length (as_bytes method) ≤ max_method = ground arith in
          let (made, instantiated, h1) =
            map_err-eq-ok _ (wasm.instantiate p.module_code) _ (rw short at h) in
          let (u, there, h2) = >>=-eq-ok (require_memory wasm p made) _ h1 in
          let (with_method, wrote, h3) =
            map_err-eq-ok _ (wasm.write made 0 (as_bytes method)) _ h2 in
          let (with_path, wrote_path, h4) =
            map_err-eq-ok _ (wasm.write with_method path_offset (as_bytes path)) _ h3 in
          let (function, exported, h5) = map_err-eq-ok _ (wasm.get_on_request with_path) _ h4 in
          let (result, called, h6) =
            map_err-eq-ok _ (wasm.call function with_path 0 _ path_offset _) _ h5 in
          record {
            made = made;
            with_method = with_method;
            instance_at_call = with_path;
            instantiated = instantiated;
            has_memory = required p made _ there;
            wrote_method = wrote;
            wrote_path = wrote_path;
            exported = exported;
            function = function;
            result = result;
            called = called;
            answer = ground arith;
            short = fits;
            method_held =
                kept_method with_method with_path (as_bytes method) (as_bytes path) fits wrote_path
                  (written_path made with_method 0 (as_bytes method) wrote);
            path_held = written_path with_method with_path path_offset (as_bytes path) wrote_path;
          }
    ]
