-- ===== src/Graphics/Found.antt =====
-- The screen that the start finds, if it finds one.
use mathlib.Core.Path.{subst⁻¹}
use hnmos.Prelude.{
  ℕ, ◌/◌, ◌%◌, ◌≤◌, ◌≡◌, ◌≢◌, ◌⊎◌, ◌∙◌, sym, refl, ap, Bool, true, false, ◌||◌, inl, inr, Option,
  none, some, ltb, ◌==◌, arith, Bool-cases, if◌then◌else◌,
}
use mathlib.Core.Option.{some-injective, none-ne-some}
use hnmos.Graphics.Bus.{Found, base_address, IsFirst, IsFirst-unique, find_lfb_address-Found}
use hnmos.Graphics.Framebuffer.{
  Framebuffer, DisplayInfo, Adapter, multiboot, bga, no_source, supported_bpp, set_default_masks,
  is_usable, init_multiboot, find_lfb_address, init_bga, init,
}

-- What the boot loader has to report for its screen to be taken: bit 12 of the flags, an address
-- below 4 GiB, a screen of direct colors with 16, 24 or 32 bits a pixel, and an address, a width, a
-- height and a pitch that are not 0.
pub record IsOffered (i : DisplayInfo) : Type 0 where
  pub flagged : i.flags / 4096 % 2 ≡ 1
  pub low : i.addr_high ≡ 0
  pub direct : i.kind ≡ 1
  pub depth : (i.bpp ≡ 16) ⊎ (i.bpp ≡ 24) ⊎ (i.bpp ≡ 32)
  pub address : i.addr_low ≢ 0
  pub size : (i.width ≢ 0) × (i.height ≢ 0) × (i.pitch ≢ 0)

-- The place and the size of a component: as reported if no reported size is 0, else the usual ones
-- of the depth, given here for 16 bits and for more.
abbrev pub mask_of : DisplayInfo → ℕ → ℕ → ℕ → ℕ
mask_of i reported in_16 in_32 =
    if (i.red_mask_size == 0) || (i.green_mask_size == 0) || (i.blue_mask_size == 0)
    then (if i.bpp == 16 then in_16 else in_32)
    else reported

-- The screen of the boot loader.
abbrev pub boot_screen : DisplayInfo → Framebuffer
boot_screen i = record {
  buffer = i.addr_low;
  address = i.addr_low;
  width = i.width;
  height = i.height;
  pitch = i.pitch;
  bpp = i.bpp;
  kind = i.kind;
  red_position = mask_of i i.red_position 11 16;
  red_mask_size = mask_of i i.red_mask_size 5 8;
  green_position = mask_of i i.green_position 5 8;
  green_mask_size = mask_of i i.green_mask_size 6 8;
  blue_position = mask_of i i.blue_position 0 0;
  blue_mask_size = mask_of i i.blue_mask_size 5 8;
  source = multiboot;
  available = true;
}

-- The screen of the display adapter: 1024 columns and 768 rows with 32 bits a pixel.
abbrev pub adapter_screen : ℕ → Framebuffer
adapter_screen address = record {
  buffer = address;
  address = address;
  width = 1024;
  height = 768;
  pitch = 4096;
  bpp = 32;
  kind = 1;
  red_position = 16;
  red_mask_size = 8;
  green_position = 8;
  green_mask_size = 8;
  blue_position = 0;
  blue_mask_size = 8;
  source = bga;
  available = true;
}

-- An adapter with a known identification, and a display on the bus whose address is not 0.
pub record IsPresent (a : Adapter) (d : ℕ) : Type 0 where
  pub known : (0xB0C0 ≤ a.bga_id) × (a.bga_id ≤ 0xB0C5)
  pub first : IsFirst a 0 d
  pub placed : base_address a d ≢ 0

module _ (info : Option DisplayInfo) (a : Adapter) (fb : Framebuffer) where
  abbrev pub NotOffered : Type 0
  NotOffered = (i : DisplayInfo) → info ≡ some i → ¬ IsOffered i

  -- What a start answers, and the screen that it leaves.
  pub data Opens : Bool × Framebuffer → Type 0 where
    from_boot : (i : DisplayInfo) → info ≡ some i → IsOffered i → Opens (true, boot_screen i)
    from_adapter :
        (d : ℕ) → NotOffered → IsPresent a d → Opens (true, adapter_screen (base_address a d))
    nothing :
        NotOffered
        → ((d : ℕ) → ¬ IsPresent a d)
        → Opens (false, record fb { available = false; source = no_source })

usable-IsOffered : (i : DisplayInfo) → is_usable i ≡ true → IsOffered i
unfolding is_usable supported_bpp
usable-IsOffered i h = record {
  flagged = ground (arith, h);
  low = ground (arith, h);
  direct = ground (arith, h);
  depth = ground (arith, h);
  address = λ e. ground (arith, h, e);
  size = ((λ e. ground (arith, h, e)), (λ e. ground (arith, h, e)), λ e. ground (arith, h, e));
}

unusable-IsOffered : (i : DisplayInfo) → is_usable i ≡ false → ¬ IsOffered i
unfolding is_usable supported_bpp
unusable-IsOffered i h o = ground (arith, h, o.flagged, o.low, o.direct, o.depth, o.address, o.size)

init_multiboot-boot_screen :
    (i : DisplayInfo) (fb : Framebuffer)
    → is_usable i ≡ true
    → init_multiboot (some i) fb ≡ (true, boot_screen i)
unfolding init_multiboot set_default_masks
init_multiboot-boot_screen i fb h =
    elim (Bool-cases
      ((i.red_mask_size == 0) || (i.green_mask_size == 0) || (i.blue_mask_size == 0))) [
        | inl missing ↦ elim (Bool-cases (i.bpp == 16)) [
          | inl short ↦ simp (h, missing, short) refl
          | inr long ↦ simp (h, missing, long) refl
        ]
        | inr given ↦ simp (h, given) refl
      ]

no_boot :
    (info : Option DisplayInfo) (a : Adapter) (fb : Framebuffer)
    → NotOffered info a fb
    → init info a fb ≡ init_bga a (record fb { available = false; source = no_source })
unfolding init init_multiboot
no_boot none a fb h = refl
no_boot (some i) a fb h = elim (Bool-cases (is_usable i)) [
  | inl offered ↦ absurd (h i refl (usable-IsOffered i offered))
  | inr refused ↦ simp refused refl
]

module _ (info : Option DisplayInfo) (a : Adapter) (fb : Framebuffer) where
  abbrev cleared : Framebuffer
  cleared = record fb { available = false; source = no_source }

  abbrev absent : Bool
  absent = ltb a.bga_id 0xB0C0 || ltb 0xB0C5 a.bga_id || (find_lfb_address a == 0)

  init_bga-there : absent ≡ false → init_bga a cleared ≡ (true, adapter_screen (find_lfb_address a))
  unfolding init_bga set_default_masks
  init_bga-there h = simp h refl

  init_bga-absent : absent ≡ true → init_bga a cleared ≡ (false, cleared)
  unfolding init_bga
  init_bga-absent h = simp h refl

  bus-Opens :
      NotOffered info a fb → Found a 0 (find_lfb_address a) → Opens info a fb (init_bga a cleared)
  bus-Opens no_offer (inl (d, first, e)) = elim (Bool-cases absent) [
    | inl missing ↦
        let none_there : (k : ℕ) → ¬ IsPresent a k = λ k p.
          let same = IsFirst-unique a k d p.first first in
          let r : find_lfb_address a ≡ base_address a k = e ∙ ap (base_address a) (sym same) in
          ground (arith, missing, p.known, p.placed, r) in
        subst⁻¹ (Opens info a fb) (init_bga-absent missing) (nothing no_offer none_there)
    | inr there ↦
        let q : IsPresent a d = record {
          known = (ground (arith, there), ground (arith, there));
          first = first;
          placed = λ z. ground (arith, there, e, z);
        } in
        subst⁻¹ (Opens info a fb) (init_bga-there there ∙ ap (λ b. (true, adapter_screen b)) e)
          (from_adapter d no_offer q)
  ]
  bus-Opens no_offer (inr (nowhere, e)) =
      let missing : absent ≡ true = ground (arith, e) in
      let none_there : (k : ℕ) → ¬ IsPresent a k = λ k p.
        let found = p.first.is_display in
        ground (arith, found, nowhere k (omega arith) p.first.below) in
      subst⁻¹ (Opens info a fb) (init_bga-absent missing) (nothing no_offer none_there)

  init-Opens : NotOffered info a fb → Opens info a fb (init info a fb)
  init-Opens no_offer =
      subst⁻¹ (Opens info a fb) (no_boot info a fb no_offer)
        (bus-Opens no_offer (find_lfb_address-Found a))

init-boot_screen :
    (i : DisplayInfo) (a : Adapter) (fb : Framebuffer)
    → is_usable i ≡ true
    → init (some i) a fb ≡ (true, boot_screen i)
unfolding init
init-boot_screen i a fb h =
    simp (init_multiboot-boot_screen i (record fb { available = false; source = no_source }) h) refl

-- A start takes the boot loader's screen if one is offered, with the reported fields, and the usual
-- masks where a mask's size is 0; else, if the display adapter answers with a known identification
-- and the first display on the bus has a base address that is not 0, it takes the adapter's screen
-- there; else it leaves none.
pub init_screen :
    (info : Option DisplayInfo) (a : Adapter) (fb : Framebuffer) → Opens info a fb (init info a fb)
init_screen none a fb = init-Opens none a fb (λ i e o. none-ne-some i e)
init_screen (some i) a fb = elim (Bool-cases (is_usable i)) [
  | inl offered ↦
      subst⁻¹ (Opens (some i) a fb) (init-boot_screen i a fb offered)
        (from_boot i refl (usable-IsOffered i offered))
  | inr refused ↦
      init-Opens (some i) a fb
        (λ j e o. unusable-IsOffered i refused (subst⁻¹ IsOffered (some-injective i j e) o))
]
