-- ===== src/Setup/Document.antt =====
-- What the settlement programs read from an `accounts.json` that the set-up programs wrote.
use bartok.Base.{
  ◌≡◌, refl, sym, ap, ◌∙◌, true, Bool-cases, inl, inr, some, List, [], ◌∷◌, ok, ◌>>=◌, context,
  context-eq-ok, ok_inj, if◌then◌else◌,
}
use bartok.Text.{Text, codes, text_eq}
use bartok.Text.Laws.{text_eq_iff}
use bartok.Host.{Host}
use bartok.Settle.{accounts_of}
use bartok.Setup.{
  JsonDoc, set_all, account_entries, accounts_doc, multisig_entries, merge_multisigs, merge_faucet,
  guardian_grpc_url,
}

-- The value that the last assignment to a key leaves, or the one from before.
abbrev pub bound : {J : Type 0} → Text → List (Text × J) → J → J
bound k [] old = old
bound k ((q, v) ∷ es) old = bound k es (if text_eq k q then v else old)

module _ (h : Host) (d : JsonDoc h) where
  open h use {
    Json, AccountId, json_parse, json_index, json_str, account_from_hex, to_hex,
    with_account_target, u32_of_tag,
  }
  open d use {
    empty_object, set, of_text, of_number, pretty, index_set, index_set_other, str_of_text,
    parse_pretty, is_object, set_object, set_is_object, pretty_total, empty_is_object,
  }

  index_set-if :
      (j : Json) (k q : Text) (v j' : Json)
      → set j q v ≡ some j'
      → json_index j' k ≡ (if text_eq k q then v else json_index j k)
  index_set-if j k q v j' e = elim (Bool-cases (text_eq k q)) [
    | inl same ↦ rw (same, (text_eq_iff k q).0 same) (index_set j q v j' e)
    | inr differ ↦ rw differ (index_set_other j q k v j' (λ x. cc ((text_eq_iff k q).1 x)) e)
  ]

  pub index-set_all :
      (k : Text) (es : List (Text × Json)) (j j' : Json)
      → set_all h d es j ≡ ok j'
      → json_index j' k ≡ bound k es (json_index j k)
  unfolding set_all
  index-set_all k [] j j' e = ap (λ x. json_index x k) (sym (ok_inj e))
  index-set_all k ((q, v) ∷ es) j j' e =
      let (next, placed, rest) = context-eq-ok (set j q v) _ _ e in
      index-set_all k es next j' rest ∙ ap (bound k es) (index_set-if j k q v next placed)

  set_all_total :
      (es : List (Text × Json)) (j : Json)
      → is_object j ≡ true
      → (j' : Json) × (set_all h d es j ≡ ok j') × (is_object j' ≡ true)
  unfolding set_all
  set_all_total [] j object = (j, refl, object)
  set_all_total ((k, v) ∷ es) j object =
      let (next, placed) = set_object j k v object in
      let (j', rest, object') = set_all_total es next (set_is_object j k v next placed) in
      (j', rw (placed, rest), object')

  -- The file after assignments to an object.
  pub record IsWritten (es : List (Text × Json)) (j : Json) (file : Text) : Type 0 where
    pub value : Json
    pub parses : json_parse file ≡ some value
    pub object : is_object value ≡ true
    pub holds : (k : Text) → json_index value k ≡ bound k es (json_index j k)

  written :
      (es : List (Text × Json)) (j : Json)
      → is_object j ≡ true
      → (file : Text) × ((do x ← set_all h d es j; context (pretty x) "to_string_pretty") ≡ ok file)
        × IsWritten es j file
  written es j object =
      let (j', placed, object') = set_all_total es j object in
      let (file, printed) = pretty_total j' in
      (
        file,
        rw (placed, printed),
        record {
          value = j';
          parses = parse_pretty j' file printed;
          object = object';
          holds = λ k. index-set_all k es j j' placed;
        },
      )

  merge_multisigs-IsWritten :
      (ids : List (Text × Text)) (file : Text) (j : Json)
      → json_parse file ≡ some j
      → is_object j ≡ true
      → (file' : Text) × (merge_multisigs h d ids file ≡ ok file')
        × IsWritten (multisig_entries h d ids) j file'
  unfolding merge_multisigs
  merge_multisigs-IsWritten ids file j parses object =
      let (file', done, is) = written (multisig_entries h d ids) j object in
      (file', rw parses done, is)

  merge_faucet-IsWritten :
      (faucet : AccountId) (file : Text) (j : Json)
      → json_parse file ≡ some j
      → is_object j ≡ true
      → (file' : Text) × (merge_faucet h d faucet file ≡ ok file')
        × IsWritten ((codes "faucet", of_text (to_hex faucet)) ∷ []) j file'
  unfolding merge_faucet
  merge_faucet-IsWritten faucet file j parses object =
      let (file', done, is) = written ((codes "faucet", of_text (to_hex faucet)) ∷ []) j object in
      (file', rw parses done, is)

  -- Where `accounts.json` holds four texts, `accounts_of` reads them.
  accounts_of-texts :
      (file grpc : Text) (j : Json) (seller operator faucet : AccountId)
      → json_parse file ≡ some j
      → json_index j (codes "sellerMultisig") ≡ of_text (to_hex seller)
      → json_index j (codes "operatorMultisig") ≡ of_text (to_hex operator)
      → json_index j (codes "faucet") ≡ of_text (to_hex faucet)
      → json_index j (codes "guardianGrpc") ≡ of_text grpc
      → account_from_hex (to_hex seller) ≡ some seller
      → account_from_hex (to_hex operator) ≡ some operator
      → account_from_hex (to_hex faucet) ≡ some faucet
      → accounts_of h (some file)
        ≡ ok (record {
          seller = seller;
          operator_multisig = operator;
          faucet = faucet;
          guardian_grpc = grpc;
        })
  unfolding accounts_of
  accounts_of-texts file grpc j seller operator faucet parses is is' is'' is''' rs ro rf = rw (
    parses,
    is,
    is',
    is'',
    is''',
    str_of_text (to_hex seller),
    rs,
    str_of_text (to_hex operator),
    ro,
    str_of_text (to_hex faucet),
    rf,
    str_of_text grpc,
  )

  -- Setting up always works, and the settlement programs read the result: after setup_accounts.rs,
  -- setup_multisigs.rs with the two multisigs that it found, and new_faucet.rs, `accounts.json` names
  -- these multisigs, the new faucet and the endpoint of Bartok-Guardian, and its operator tag is still
  -- that of the operator wallet of setup_accounts.rs. The three ids are such that the client reads
  -- back their hexadecimal text.
  pub setup-accounts_of :
      (seller operator faucet seller_multisig operator_multisig next_faucet : AccountId)
      → account_from_hex (to_hex seller_multisig) ≡ some seller_multisig
      → account_from_hex (to_hex operator_multisig) ≡ some operator_multisig
      → account_from_hex (to_hex next_faucet) ≡ some next_faucet
      → (made merged renewed : Text) × (accounts_doc h d seller operator faucet ≡ ok made)
        × (merge_multisigs h d
              ((codes "operatorMultisig", to_hex operator_multisig)
                ∷ (codes "sellerMultisig", to_hex seller_multisig)
                ∷ [])
              made
            ≡ ok merged)
        × (merge_faucet h d next_faucet merged ≡ ok renewed)
        × (accounts_of h (some renewed)
            ≡ ok (record {
              seller = seller_multisig;
              operator_multisig = operator_multisig;
              faucet = next_faucet;
              guardian_grpc = guardian_grpc_url;
            }))
        × (j : Json) × (json_parse renewed ≡ some j)
        × (json_index j (codes "operatorTag")
            ≡ of_number (u32_of_tag (with_account_target operator)))
  unfolding accounts_doc text_eq
  setup-accounts_of seller operator faucet seller_multisig operator_multisig next_faucet rs ro rf =
      let (made, done, doc) =
        written (account_entries h d seller operator faucet) empty_object empty_is_object in
      let ids : List (Text × Text) =
        (codes "operatorMultisig", to_hex operator_multisig)
        ∷ (codes "sellerMultisig", to_hex seller_multisig)
        ∷ [] in
      let (merged, done', multi) =
        merge_multisigs-IsWritten ids made doc.value doc.parses doc.object in
      let (renewed, done'', new) =
        merge_faucet-IsWritten next_faucet merged multi.value multi.parses multi.object in
      (
        made,
        merged,
        renewed,
        done,
        done',
        done'',
        accounts_of-texts renewed guardian_grpc_url new.value seller_multisig operator_multisig
            next_faucet new.parses
            (new.holds (codes "sellerMultisig") ∙ multi.holds (codes "sellerMultisig"))
            (new.holds (codes "operatorMultisig") ∙ multi.holds (codes "operatorMultisig"))
            (new.holds (codes "faucet"))
            (new.holds (codes "guardianGrpc") ∙ multi.holds (codes "guardianGrpc")) rs ro rf,
        new.value,
        new.parses,
        new.holds (codes "operatorTag")
            ∙ multi.holds (codes "operatorTag")
            ∙ doc.holds (codes "operatorTag"),
      )
