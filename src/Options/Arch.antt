-- ===== src/Options/Arch.antt =====
-- src/buildstream/_platform/platform.py: the canonical names of architectures.
use buildstream.Common.{
  ◌≡◌, refl, Bool, true, false, List, [], ◌∷◌, map, if◌then◌else◌, ◌==◌, Option, none, some,
  Outcome, ok, raise, load_error, All, Ensures,
}
use buildstream.Options.Texts.{Text, codes, same_text, lower}

abbrev pub aliases : List (Text × Text)
aliases =
    (codes "aarch32", codes "aarch32")
    ∷ (codes "aarch64", codes "aarch64")
    ∷ (codes "aarch64-be", codes "aarch64-be")
    ∷ (codes "amd64", codes "x86-64")
    ∷ (codes "arm", codes "aarch32")
    ∷ (codes "armv8l", codes "aarch64")
    ∷ (codes "armv8b", codes "aarch64-be")
    ∷ (codes "i386", codes "x86-32")
    ∷ (codes "i486", codes "x86-32")
    ∷ (codes "i586", codes "x86-32")
    ∷ (codes "i686", codes "x86-32")
    ∷ (codes "la64v100", codes "la64v100")
    ∷ (codes "loong64", codes "la64v100")
    ∷ (codes "loongarch64", codes "la64v100")
    ∷ (codes "power-isa-be", codes "power-isa-be")
    ∷ (codes "power-isa-le", codes "power-isa-le")
    ∷ (codes "powerpc", codes "power-isa-be")
    ∷ (codes "powerpc64", codes "power-isa-be")
    ∷ (codes "powerpc64le", codes "power-isa-le")
    ∷ (codes "ppc64", codes "power-isa-be")
    ∷ (codes "ppc64le", codes "power-isa-le")
    ∷ (codes "riscv32", codes "rv32g")
    ∷ (codes "riscv64", codes "rv64g")
    ∷ (codes "rv32g", codes "rv32g")
    ∷ (codes "rv64g", codes "rv64g")
    ∷ (codes "sparc", codes "sparc-v9")
    ∷ (codes "sparc64", codes "sparc-v9")
    ∷ (codes "sparc-v9", codes "sparc-v9")
    ∷ (codes "sun4v", codes "sparc-v9")
    ∷ (codes "x86-32", codes "x86-32")
    ∷ (codes "x86-64", codes "x86-64")
    ∷ []

abbrev pub find_alias : Text → List (Text × Text) → Option Text
find_alias name [] = none
find_alias name ((k, v) ∷ m) = if same_text k name then some v else find_alias name m

-- arch.replace("_", "-").lower()
unfoldable pub normalise : Text → Text
normalise arch = map (λ c. lower (if c == b'_' then b'-' else c)) arch

-- `load_error` stands for the `PlatformError`, which the options report as one.
abbrev known : Option Text → Outcome Text
known none = raise load_error
known (some arch) = ok arch

unfoldable pub canonicalize_arch : Text → Outcome Text
unfolding normalise
canonicalize_arch arch = known (find_alias (normalise arch) aliases)

pub record Uname : Type 0 where
  pub system : Text
  pub machine : Text
  pub processor : Text

unfoldable pub get_host_arch : Uname → Outcome Text
get_host_arch uname =
    canonicalize_arch
      (if same_text (map lower uname.system) (codes "aix") then uname.processor else uname.machine)

known-alias :
    (P : Text → Type 0) (name : Text) (m : List (Text × Text))
    → All (λ a. P a.1) m
    → Ensures P (known (find_alias name m))
known-alias P name [] h = tt
known-alias P name ((k, v) ∷ m) h = by_key (same_text k name) (known-alias P name m h.1)
  where
    by_key :
        (b : Bool)
        → Ensures P (known (find_alias name m))
        → Ensures P (known (if b then some v else find_alias name m))
    by_key true later = h.0
    by_key false later = later

aliases_canonical : All (λ a. canonicalize_arch a.1 ≡ ok a.1) aliases
unfolding canonicalize_arch normalise
aliases_canonical = (
  refl,
  (
    refl,
    (
      refl,
      (
        refl,
        (
          refl,
          (
            refl,
            (
              refl,
              (
                refl,
                (
                  refl,
                  (
                    refl,
                    (
                      refl,
                      (
                        refl,
                        (
                          refl,
                          (
                            refl,
                            (
                              refl,
                              (
                                refl,
                                (
                                  refl,
                                  (
                                    refl,
                                    (
                                      refl,
                                      (
                                        refl,
                                        (
                                          refl,
                                          (
                                            refl,
                                            (
                                              refl,
                                              (
                                                refl,
                                                (
                                                  refl,
                                                  (
                                                    refl,
                                                    (refl, (refl, (refl, (refl, (refl, tt))))),
                                                  ),
                                                ),
                                              ),
                                            ),
                                          ),
                                        ),
                                      ),
                                    ),
                                  ),
                                ),
                              ),
                            ),
                          ),
                        ),
                      ),
                    ),
                  ),
                ),
              ),
            ),
          ),
        ),
      ),
    ),
  ),
)

-- The canonical name of an architecture is its own canonical name.
pub canonicalize_arch-canonicalize_arch :
    (arch : Text) → Ensures (λ c. canonicalize_arch c ≡ ok c) (canonicalize_arch arch)
canonicalize_arch-canonicalize_arch arch =
    unfold canonicalize_arch in
    known-alias (λ c. canonicalize_arch c ≡ ok c) (normalise arch) aliases aliases_canonical
