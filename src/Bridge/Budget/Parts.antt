-- ===== src/Bridge/Budget/Parts.antt =====
-- The parts of a step of ux-prototype/server.js keep the charges within the holds.
use bartok.Base.{
  ℕ, ◌+◌, ◌≤◌, ◌≡◌, refl, ap, true, false, Option, none, some, List, [], ◌∷◌, ◌++◌, arith,
}
use bartok.Text.{Text}
use bartok.Host.{Host}
use bartok.Bridge.{is_armed, Object, Handler, Bridge, total, modify, insert, persist, User}
use bartok.Bridge.Chat.{charged}
use bartok.Bridge.Waiting.{
  weigh, weigh-middle, weigh-All, All-middle, All-imp, is_chat, at-modify, modify-Holds, at-insert,
  insert-Holds, when_listed-HoldsSaved,
}
use bartok.Bridge.Budget.{
  total-append, Spent, Covered, Settles, Grows, Covered-Grows, Settles-Grows, Spent-same, not-chat,
  modify-Grows, OriginOf, Good, Sound,
}

module _ (h : Host) (program : Text) (accounts_json : Option Text) where
  -- The parts of a step: a change to one object,
  pub Sound-modify :
      (b : Bridge) (i : ℕ) (g : Object → Object)
      → Sound h program accounts_json b
      → ((o : Object) → o.session.budget ≡ (g o).session.budget)
      → ((o : Object)
          → is_armed o.session.escrow_note_b64 ≡ true
          → is_armed (g o).session.escrow_note_b64 ≡ true)
      → ((o : Object) → total (g o).session.charges ≡ total o.session.charges)
      → ((o : Object)
          → OriginOf h program accounts_json o.session
          → OriginOf h program accounts_json (g o).session)
      → Sound h program accounts_json (record b { objects = modify i g b.objects })
  Sound-modify b i g sound budget escrow charges origin =
      let grows = modify-Grows i g b.objects budget escrow in
      let totals =
        at-modify 0 (λ s. total s.charges) (λ x y. y ≡ x) (λ x. refl) i g b.objects charges in
      record {
        sessions =
            modify-Holds (Good h program accounts_json) i g b.objects
              (λ o found good. (omega (arith, good.0, budget o, charges o), origin o good.1))
              sound.sessions;
        saves = sound.saves;
        one_chat = sound.one_chat;
        spends = All-imp (Spent-same b.objects _ totals) b.waiting sound.spends;
        settling = All-imp (Settles-Grows grows) b.waiting sound.settling;
        paid = All-imp (λ x. Covered-Grows grows x.0 x.1) b.settlements sound.paid;
      }

  -- a new object,
  pub Sound-insert :
      (b : Bridge) (i : ℕ) (o : Object)
      → Sound h program accounts_json b
      → b.objects i ≡ none
      → total o.session.charges ≡ 0
      → OriginOf h program accounts_json o.session
      → Sound h program accounts_json (record b { objects = insert i o b.objects })
  Sound-insert b i o sound fresh none_yet origin =
      let grows : Grows b.objects (insert i o b.objects) = record {
        budgets =
            at-insert 0 (λ s. s.budget) ◌≤◌ (λ a. omega arith) i o b.objects fresh (omega arith);
        arms =
            at-insert false (λ s. is_armed s.escrow_note_b64) (λ x y. x ≡ true → y ≡ true)
              (λ x e. e) i o b.objects fresh (λ e. cc);
      } in
      let totals =
        at-insert 0 (λ s. total s.charges) (λ x y. y ≡ x) (λ x. refl) i o b.objects fresh
          none_yet in
      record {
        sessions =
            insert-Holds (Good h program accounts_json) i o b.objects
              (omega (arith, none_yet), origin) sound.sessions;
        saves = sound.saves;
        one_chat = sound.one_chat;
        spends = All-imp (Spent-same b.objects _ totals) b.waiting sound.spends;
        settling = All-imp (Settles-Grows grows) b.waiting sound.settling;
        paid = All-imp (λ x. Covered-Grows grows x.0 x.1) b.settlements sound.paid;
      }

  -- a charge, when no other chat waits,
  pub Sound-charge :
      (b : Bridge) (i charge now : ℕ) (users : Text → User)
      → Sound h program accounts_json b
      → weigh is_chat b.waiting ≡ 0
      → ((o : Object) → b.objects i ≡ some o → total o.session.charges + charge ≤ o.session.budget)
      → Sound h program accounts_json
          (record b { objects = modify i (charged charge now) b.objects; users = users })
  Sound-charge b i charge now users sound quiet room =
      let grows = modify-Grows i (charged charge now) b.objects (λ o. refl) (λ o e. e) in
      record {
        sessions =
            modify-Holds (Good h program accounts_json) i (charged charge now) b.objects
              (λ o found good.
                (omega (arith, total-append o.session.charges (charge ∷ []), room o found), good.1))
              sound.sessions;
        saves = sound.saves;
        one_chat = sound.one_chat;
        spends = weigh-All is_chat (not-chat _) b.waiting quiet;
        settling = All-imp (Settles-Grows grows) b.waiting sound.settling;
        paid = All-imp (λ x. Covered-Grows grows x.0 x.1) b.settlements sound.paid;
      }

  -- a handler that goes on,
  pub Sound-drop :
      (b : Bridge) (before after : List Handler) (x : Handler)
      → Sound h program accounts_json b
      → b.waiting ≡ before ++ x ∷ after
      → Sound h program accounts_json (record b { waiting = before ++ after })
  Sound-drop b before after x sound here = record {
    sessions = sound.sessions;
    saves = sound.saves;
    one_chat =
        omega (arith, weigh-middle is_chat before after x, ap (weigh is_chat) here, sound.one_chat);
    spends = (All-middle (Spent b.objects) before after x (rw here at sound.spends)).1;
    settling = (All-middle (Settles b.objects) before after x (rw here at sound.settling)).1;
    paid = sound.paid;
  }

  -- a settlement that begins or is logged,
  pub Sound-settle :
      (b : Bridge) (x : Handler)
      → Sound h program accounts_json b
      → is_chat x ≡ 0
      → Settles b.objects x
      → Sound h program accounts_json (record b { waiting = x ∷ b.waiting })
  Sound-settle b x sound no_chat covers = record {
    sessions = sound.sessions;
    saves = sound.saves;
    one_chat = omega (arith, sound.one_chat, no_chat);
    spends = (not-chat b.objects x no_chat, sound.spends);
    settling = (covers, sound.settling);
    paid = sound.paid;
  }

  pub Sound-log :
      (b : Bridge) (id charge : ℕ)
      → Sound h program accounts_json b
      → Covered b.objects id charge
      → Sound h program accounts_json (record b { settlements = (id, charge) ∷ b.settlements })
  Sound-log b id charge sound covers = record {
    sessions = sound.sessions;
    saves = sound.saves;
    one_chat = sound.one_chat;
    spends = sound.spends;
    settling = sound.settling;
    paid = (covers, sound.paid);
  }

  -- and the snapshot.
  pub Sound-persist :
      (b : Bridge) → Sound h program accounts_json b → Sound h program accounts_json (persist b)
  Sound-persist b sound = record {
    sessions = sound.sessions;
    saves =
        λ i. when_listed-HoldsSaved (Good h program accounts_json) (b.objects i) (sound.sessions i);
    one_chat = sound.one_chat;
    spends = sound.spends;
    settling = sound.settling;
    paid = sound.paid;
  }
