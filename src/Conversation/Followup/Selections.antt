-- ===== src/Conversation/Followup/Selections.antt =====
-- app/conversation/alpilab_check_followup.py with app/conversation/alpilab_check_context.py: what the
-- selection of a product keeps true, and where the product of a follow-up comes from.
use alpilab_ai.Base.{
  ℕ, String, Bool, true, false, Option, none, some, List, [], ◌∷◌, ◌≡◌, ◌≢◌, ◌⊎◌, inl, inr, ◌==◌,
  not, ◌||◌, ◌&&◌, refl, sym, ◌∙◌, if_rule, some_injective, is_some,
}
use alpilab_ai.Base.Json.{Items, Fields, lookup, field, end, string}
use alpilab_ai.Base.Lists.{get_elem?}
use alpilab_ai.Base.Platform.{Platform}
use alpilab_ai.Commands.Intents.{Intent, open_tool}
use alpilab_ai.Conversation.Products.{
  ProductSearchItem, ProductSearchContext, built, build_product_search_context, build_from,
  mark_product_selected, select, as_list, valid_items,
}
use alpilab_ai.Conversation.Products.Messages.{format_disambiguation_message}
use alpilab_ai.Conversation.Followup.{
  extract_model_phrase, normalize, is_general_conversation, looks_like_product_followup,
  extract_detail_focus, is_detail_request,
}
use alpilab_ai.Conversation.Followup.Resolve.{
  FollowUpResolution, make_get_product_intent, Choice, chosen, answered, choose, resolve_choice,
  resolve_item, resolve_text, resolve_items, resolve_product_followup, unmatched, name_matches,
  choose_by_name, choose_without_name, selected_or, only_item, clarify, has_text,
}

-- There are hits; the selected index is one of theirs, with the id beside it, and then the user is
-- not asked to choose; without a selection the user is.
pub record IsSelectionSound (c : ProductSearchContext) : Type 0 where
  pub has_items : c.items ≢ []
  pub selected :
      (i : ℕ)
      → c.selected_index ≡ some i
      → ((item : ProductSearchItem) × (get_elem? c.items i ≡ some item)
          × (c.selected_product_id ≡ some item.id))
        × (c.awaiting_selection ≡ false)
  pub unselected :
      c.selected_index ≡ none → (c.selected_product_id ≡ none) × (c.awaiting_selection ≡ true)

built-IsSelectionSound :
    (items : List ProductSearchItem) (now : ℕ) (c : ProductSearchContext)
    → built items now ≡ some c
    → IsSelectionSound c
built-IsSelectionSound [] now c e = let clash : none ≡ some c = e in cc
built-IsSelectionSound (item ∷ []) now c e = rw (sym (some_injective e)) (record {
  has_items = λ h. cc;
  selected = λ i h. rw (sym (some_injective h)) ((item, refl, refl), refl);
  unselected = λ h. cc;
})
built-IsSelectionSound (item ∷ other ∷ items) now c e =
    rw (sym (some_injective e))
      (record { has_items = λ h. cc; selected = λ i h. cc; unselected = λ h. (refl, refl) })

build_from-IsSelectionSound :
    (p : Platform) (now : ℕ) (o : Option Items) (c : ProductSearchContext)
    → build_from p now o ≡ some c
    → IsSelectionSound c
build_from-IsSelectionSound p now none c e = let clash : none ≡ some c = e in cc
build_from-IsSelectionSound p now (some items) c e =
    built-IsSelectionSound (valid_items p items) now c e

build_product_search_context-IsSelectionSound :
    (p : Platform) (now : ℕ) (payload : Fields) (c : ProductSearchContext)
    → build_product_search_context p now payload ≡ some c
    → IsSelectionSound c
unfolding build_product_search_context
build_product_search_context-IsSelectionSound p now payload c e =
    build_from-IsSelectionSound p now (as_list (lookup "items" payload)) c e

select-IsSelectionSound :
    (c : ProductSearchContext) (i : ℕ) (item : ProductSearchItem)
    → get_elem? c.items i ≡ some item
    → IsSelectionSound c
    → IsSelectionSound (select (some item) i c)
select-IsSelectionSound c i item e h = record {
  has_items = h.has_items;
  selected = λ j k. let same : i ≡ j = some_injective k in ((item, rw same at e, refl), refl);
  unselected = λ k. cc;
}

-- The resolution speaks and changes nothing, or it is about the i-th of the hits, which becomes the
-- selected one: the intent, if it has one, opens the tool that reads a product with just the id of this
-- hit, for the words of the user.
pub data Grounded (text : String) (c : ProductSearchContext)
    : FollowUpResolution × ProductSearchContext → Type 0 where
  spoken : (r : FollowUpResolution) → r.intent ≡ none → Grounded text c (r, c)
  picked :
      (i : ℕ) (item : ProductSearchItem) (r : FollowUpResolution)
      → get_elem? c.items i ≡ some item
      → r.product_index ≡ some i
      → (r.intent ≡ none)
        ⊎ ((intent : Intent) × (r.intent ≡ some intent)
            × (intent.type ≡ open_tool)
            × (intent.target ≡ some "alpilab_check.get_product")
            × (intent.parameters ≡ field "product_id" (string item.id) end)
            × (intent.raw_text ≡ text))
      → Grounded text c (r, select (some item) i c)

-- A choice that answers has no intent.
data Speaks : Choice → Type 0 where
  picks : (i : ℕ) → Speaks (chosen i)
  tells : (r : FollowUpResolution) → r.intent ≡ none → Speaks (answered r)

selected_or-Speaks : (o : Option ℕ) (later : Choice) → Speaks later → Speaks (selected_or o later)
selected_or-Speaks none later h = h
selected_or-Speaks (some i) later h = picks i

only_item-Speaks :
    (items : List ProductSearchItem) (later : Choice)
    → Speaks later
    → Speaks (only_item items later)
only_item-Speaks [] later h = h
only_item-Speaks (item ∷ []) later h = picks 0
only_item-Speaks (item ∷ other ∷ items) later h = h

module _ (p : Platform) where
  choose_without_name-Speaks :
      (s : String) (c : ProductSearchContext) (wants : Bool)
      → Speaks (choose_without_name p s c wants)
  choose_without_name-Speaks s c wants =
      let prompt = format_disambiguation_message c.items in
      if_rule Speaks (has_text (extract_model_phrase p s) && not wants) (tells _ refl) (
        if_rule Speaks (c.awaiting_selection && not wants) (tells _ refl) (
          selected_or-Speaks c.selected_index _ (
            only_item-Speaks c.items _ (
              tells _ (
                if_rule (λ r. r.intent ≡ none) wants {x = clarify prompt none} {y = unmatched} refl
                  refl)))))

  choose_by_name-Speaks :
      (is : List ℕ) (s : String) (c : ProductSearchContext) (wants : Bool)
      → Speaks (choose_by_name p is s c wants)
  choose_by_name-Speaks [] s c wants = choose_without_name-Speaks s c wants
  choose_by_name-Speaks (i ∷ []) s c wants = picks i
  choose_by_name-Speaks (i ∷ j ∷ is) s c wants = tells _ refl

  choose-Speaks :
      (s : String) (c : ProductSearchContext) (wants : Bool) → Speaks (choose p s c wants)
  unfolding choose
  choose-Speaks s c wants =
      selected_or-Speaks _ _
        (selected_or-Speaks _ _ (choose_by_name-Speaks (name_matches p s c wants) s c wants))

  chosen-Grounded :
      (o : Option ProductSearchItem) (i : ℕ) (c : ProductSearchContext) (wants : Bool)
      (focus : Option String) (text : String)
      → get_elem? c.items i ≡ o
      → Grounded text c (resolve_item o i wants focus text, select o i c)
  unfolding make_get_product_intent
  chosen-Grounded none i c wants focus text e = spoken (resolve_item none i wants focus text) refl
  chosen-Grounded (some item) i c true focus text e =
      picked i item (resolve_item (some item) i true focus text) e refl
        (inr (_, refl, refl, refl, refl, refl))
  chosen-Grounded (some item) i c false focus text e =
      picked i item (resolve_item (some item) i false focus text) e refl (inl refl)

  resolve_choice-Grounded :
      {choice : Choice} (c : ProductSearchContext) (wants : Bool) (focus : Option String)
      (text : String)
      → Speaks choice
      → Grounded text c (resolve_choice choice c wants focus text)
  unfolding mark_product_selected
  resolve_choice-Grounded c wants focus text (tells r h) = spoken r h
  resolve_choice-Grounded c wants focus text (picks i) =
      chosen-Grounded (get_elem? c.items i) i c wants focus text refl

  resolve_text-Grounded :
      (s text : String) (c : ProductSearchContext) → Grounded text c (resolve_text p s text c)
  resolve_text-Grounded s text c =
      let focus = extract_detail_focus p s in
      let wants = is_detail_request p s focus in
      if_rule (Grounded text c) (s == "" || is_general_conversation p s) (spoken unmatched refl) (
        if_rule (Grounded text c)
          (not (looks_like_product_followup p s c.awaiting_selection (is_some c.selected_index)))
          (spoken unmatched refl)
          (resolve_choice-Grounded c wants focus text (choose-Speaks s c wants)))

  resolve_items-Grounded :
      (items : List ProductSearchItem) (text : String) (c : ProductSearchContext)
      → Grounded text c (resolve_items p items text c)
  resolve_items-Grounded [] text c = spoken unmatched refl
  resolve_items-Grounded (item ∷ items) text c = resolve_text-Grounded (normalize p text) text c

-- A follow-up to a product search never invents a product: it only speaks and leaves the context as it
-- is, or it is about one of the hits of the search, which becomes the selected one while the hits stay
-- as they are, and its intent, if it has one, reads the product with the id of just that hit.
pub resolve_product_followup-Grounded :
    (p : Platform) (text : String) (c : ProductSearchContext)
    → (after : ProductSearchContext) × (((resolve_product_followup p text (some c)).1 ≡ some after)
        × Grounded text c ((resolve_product_followup p text (some c)).0, after))
unfolding resolve_product_followup
resolve_product_followup-Grounded p text c =
    ((resolve_items p c.items text c).1, (refl, resolve_items-Grounded p c.items text c))

Grounded-IsSelectionSound :
    {text : String} {c : ProductSearchContext} {r : FollowUpResolution × ProductSearchContext}
    → Grounded text c r
    → IsSelectionSound c
    → IsSelectionSound r.1
Grounded-IsSelectionSound (spoken r e) h = h
Grounded-IsSelectionSound {c = c} (picked i item r e index intent) h =
    select-IsSelectionSound c i item e h

-- The contexts that a session can hold: that of a search, and what the follow-ups make of it.
pub data Reached (p : Platform) : ProductSearchContext → Type 0 where
  searched :
      {c : ProductSearchContext} (now : ℕ) (payload : Fields)
      → build_product_search_context p now payload ≡ some c
      → Reached p c
  followed :
      {c after : ProductSearchContext} (text : String)
      → Reached p c
      → (resolve_product_followup p text (some c)).1 ≡ some after
      → Reached p after

-- In each context that a session can hold, reached from any search by any follow-ups, there are hits;
-- the selected index is one of theirs and the selected id is its id, and then no choice is awaited;
-- without a selection there is no selected id and a choice is awaited.
pub Reached-IsSelectionSound :
    {p : Platform} {c : ProductSearchContext} → Reached p c → IsSelectionSound c
Reached-IsSelectionSound {p} {c} (searched now payload e) =
    build_product_search_context-IsSelectionSound p now payload c e
Reached-IsSelectionSound {p} {c = after} (followed {c} text reached e) =
    let g = resolve_product_followup-Grounded p text c in
    let same : g.0 ≡ after = some_injective (sym g.1.0 ∙ e) in
    rw same at (Grounded-IsSelectionSound g.1.1 (Reached-IsSelectionSound reached))
