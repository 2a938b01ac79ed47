-- ===== src/Web/SafeState/RoundTrip.antt =====
-- The safe state that a POST (src/web/REST_endpoints/default_relay_state.c) saves is the one that
-- a GET shows and that the next start (`io_init` of src/io/io.c) loads.
use cedar_switch_3i3o_power.Common.{
  ◌+◌, ◌≤◌, ◌≡◌, refl, ◌∙◌, sym, ◌≢◌, Bool, true, false, ◌++◌, arith, length, take_of_length-le, ℤ,
  pos, negsuc, is_zero, is_pos, is_neg,
}
use cedar_switch_3i3o_power.Common.CString.{Bytes, codes}
use cedar_switch_3i3o_power.Common.Format.{bool_text}
use cedar_switch_3i3o_power.Bus.{RelaysDefState}
use cedar_switch_3i3o_power.Io.Init.{
  RelayKey, key_enabled, key_relay1, key_relay2, key_relay3, RelaySettings, load_or_default,
  io_init,
}
use cedar_switch_3i3o_power.Web.Http.{http_get, http_post, data_final, Request, Response}
use cedar_switch_3i3o_power.Web.Buffer.{stored, receive, body}
use cedar_switch_3i3o_power.Web.Buffer.Collect.{receive_final}
use cedar_switch_3i3o_power.Web.SafeState.{
  SafeRest, def_text, def_relay_state_update, def_relay_state_load, def_relay_state_handler,
}

pos_not_neg : (n : ℤ) → is_pos n ≡ true → is_neg n ≡ false
pos_not_neg (pos n) h = refl
pos_not_neg (negsuc n) h = cc

module _ (st : RelaySettings) where
  -- A load of the key finds the value, whatever is in the buffer.
  abbrev pub Holds : RelayKey → Bool → st.Store → Type 0
  Holds k v s =
      (buffer : Bool) → (is_pos (st.load k buffer s).0 ≡ true) × ((st.load k buffer s).1 ≡ v)

  Holds-save :
      (k : RelayKey) (v : Bool) (s : st.Store)
      → is_zero (st.save k v s).0 ≡ true
      → Holds k v (st.save k v s).1
  Holds-save k v s ok buffer = st.load-save k v buffer s ok

  Holds-save_other :
      (k j : RelayKey) (v w : Bool) (s : st.Store)
      → j ≢ k
      → Holds j w s
      → Holds j w (st.save k v s).1
  Holds-save_other k j v w s ne h buffer = rw (st.load-save_ne k j v buffer s ne) (h buffer)

  -- The settings hold this state.
  pub record HoldsState (def : RelaysDefState) (s : st.Store) : Type 0 where
    pub enabled : Holds key_enabled def.enabled s
    pub relay1 : Holds key_relay1 def.relay1 s
    pub relay2 : Holds key_relay2 def.relay2 s
    pub relay3 : Holds key_relay3 def.relay3 s

  -- Where no save fails.
  abbrev pub Accepts : Type 0
  Accepts = (k : RelayKey) (v : Bool) (s : st.Store) → is_zero (st.save k v s).0 ≡ true

  update-HoldsState :
      Accepts
      → (def : RelaysDefState) (s : st.Store) → HoldsState def (def_relay_state_update st def s)
  unfolding def_relay_state_update
  update-HoldsState ok def s =
      let s1 = (st.save key_enabled def.enabled s).1 in
      let s2 = (st.save key_relay1 def.relay1 s1).1 in
      let s3 = (st.save key_relay2 def.relay2 s2).1 in
      let e1 = Holds-save key_enabled def.enabled s (ok key_enabled def.enabled s) in
      let e2 = Holds-save_other key_relay1 key_enabled def.relay1 def.enabled s1 (λ e. cc) e1 in
      let e3 = Holds-save_other key_relay2 key_enabled def.relay2 def.enabled s2 (λ e. cc) e2 in
      let f2 = Holds-save key_relay1 def.relay1 s1 (ok key_relay1 def.relay1 s1) in
      let f3 = Holds-save_other key_relay2 key_relay1 def.relay2 def.relay1 s2 (λ e. cc) f2 in
      let g3 = Holds-save key_relay2 def.relay2 s2 (ok key_relay2 def.relay2 s2) in
      record {
        enabled = Holds-save_other key_relay3 key_enabled def.relay3 def.enabled s3 (λ e. cc) e3;
        relay1 = Holds-save_other key_relay3 key_relay1 def.relay3 def.relay1 s3 (λ e. cc) f3;
        relay2 = Holds-save_other key_relay3 key_relay2 def.relay3 def.relay2 s3 (λ e. cc) g3;
        relay3 = Holds-save key_relay3 def.relay3 s3 (ok key_relay3 def.relay3 s3);
      }

  load_or_default_lem :
      (k : RelayKey) (v variable : Bool) (s : st.Store)
      → Holds k v s
      → load_or_default st k variable s ≡ (v, s)
  unfolding load_or_default
  load_or_default_lem k v variable s h =
      let (found, value) = h variable in rw (pos_not_neg (st.load k variable s).0 found, value) refl

  io_init-HoldsState :
      (old def : RelaysDefState) (s : st.Store) → HoldsState def s → io_init st old s ≡ (def, s)
  unfolding io_init
  io_init-HoldsState old def s h =
      rw (load_or_default_lem key_enabled def.enabled old.enabled s h.enabled, io_init)
        (rw (load_or_default_lem key_relay1 def.relay1 old.relay1 s h.relay1) (
          rw (load_or_default_lem key_relay2 def.relay2 old.relay2 s h.relay2)
            (rw (load_or_default_lem key_relay3 def.relay3 old.relay3 s h.relay3) refl)))

  load-HoldsState :
      (def : RelaysDefState) (s : st.Store) → HoldsState def s → def_relay_state_load st s ≡ def
  unfolding def_relay_state_load
  load-HoldsState def s h =
      let (_, e) = h.enabled false in
      let (_, r1) = h.relay1 false in
      let (_, r2) = h.relay2 false in let (_, r3) = h.relay3 false in rw (e, r1, r2, r3) refl

length-bool_text : (b : Bool) (rest : Bytes) → length (bool_text b ++ rest) ≤ length rest + 5
length-bool_text true rest = omega arith
length-bool_text false rest = omega arith

length-def_text : (def : RelaysDefState) → length (def_text def) ≤ 70
unfolding def_text
length-def_text def =
    let t3 = codes "}" in
    let t2 = codes ", \"relay3\": " ++ (bool_text def.relay3 ++ t3) in
    let t1 = codes ", \"relay2\": " ++ (bool_text def.relay2 ++ t2) in
    let t0 = codes ", \"relay1\": " ++ (bool_text def.relay1 ++ t1) in
    omega (
      arith,
      length-bool_text def.enabled t0,
      length-bool_text def.relay1 t1,
      length-bool_text def.relay2 t2,
      length-bool_text def.relay3 t3,
    )

module _ (st : RelaySettings) (parse : Bytes → ℤ × RelaysDefState) where
  get_def_lem :
      (get : Request) (r : Response) (s : SafeRest st) (def : RelaysDefState)
      → get.method ≡ http_get
      → get.status ≡ data_final
      → HoldsState st def s.store
      → (def_relay_state_handler st parse get r s).response.body ≡ def_text def
  unfolding def_relay_state_handler
  get_def_lem get r s def m last h =
      rw (m, def_relay_state_handler)
        (rw (last) (
          rw (load-HoldsState st def s.store h)
            (take_of_length-le 255 (def_text def) (omega (arith, length-def_text def)))))

  -- A final chunk that completes a body with all four flags.
  pub record CompletesDef (req : Request) (s : SafeRest st) (tmp : RelaysDefState) : Type 0 where
    pub is_post : req.method ≡ http_post
    pub is_last : req.status ≡ data_final
    pub fits : s.post.cursor + length req.chunk ≤ length s.post.buff
    pub parsed : parse (body s.post ++ req.chunk) ≡ (pos 15, tmp)

  post-CompletesDef :
      (req : Request) (r : Response) (s : SafeRest st) (tmp : RelaysDefState)
      → CompletesDef req s tmp
      → ((def_relay_state_handler st parse req r s).response.status ≡ 200)
        × ((def_relay_state_handler st parse req r s).response.body ≡ def_text tmp)
        × ((def_relay_state_handler st parse req r s).state.store
            ≡ def_relay_state_update st tmp s.store)
  unfolding def_relay_state_handler
  post-CompletesDef req r s tmp c =
      let (b', e, read, _, _) = receive_final req.chunk s.post c.fits in
      let received : receive req.status req.chunk s.post ≡ stored b' = rw (c.is_last) e in
      let answer : parse (body b') ≡ (pos 15, tmp) = rw (read) c.parsed in
      ground (arith, c.is_post, c.is_last, length-def_text tmp)

  -- Where the storage accepts every save, a POST that completes a body answers 200, and the next
  -- start loads the state of that body and saves nothing.
  pub post_then_init :
      (req : Request) (r : Response) (s : SafeRest st) (tmp old : RelaysDefState)
      → Accepts st
      → CompletesDef req s tmp
      → ((def_relay_state_handler st parse req r s).response.status ≡ 200)
        × (io_init st old (def_relay_state_handler st parse req r s).state.store
            ≡ (tmp, (def_relay_state_handler st parse req r s).state.store))
  post_then_init req r s tmp old ok c =
      let (status, _, store) = post-CompletesDef req r s tmp c in
      (status, rw (store) (io_init-HoldsState st old tmp _ (update-HoldsState st ok tmp s.store)))

  -- Where the storage accepts every save, a final GET after a POST that completes a body answers
  -- the same text as the POST.
  post_then_get_def :
      (req get : Request) (r r' : Response) (s : SafeRest st) (tmp : RelaysDefState)
      → Accepts st
      → CompletesDef req s tmp
      → get.method ≡ http_get
      → get.status ≡ data_final
      → (def_relay_state_handler st parse get r'
          (def_relay_state_handler st parse req r s).state).response.body
        ≡ (def_relay_state_handler st parse req r s).response.body
  post_then_get_def req get r r' s tmp ok c m last =
      let (_, text, store) = post-CompletesDef req r s tmp c in
      let held = update-HoldsState st ok tmp s.store in
      get_def_lem get r' (def_relay_state_handler st parse req r s).state tmp m last
        (rw (store) held)
      ∙ sym text
