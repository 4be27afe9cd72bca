-- ===== src/CoinType.antt =====
-- include/mhda/coin_type.hpp: the SLIP-44 coin types.
use mhda.Base.{ℕ, List, [], ◌∷◌}

abbrev pub btc : ℕ
btc = 0

abbrev pub ltc : ℕ
ltc = 2

abbrev pub doge : ℕ
doge = 3

abbrev pub dash : ℕ
dash = 5

abbrev pub eth : ℕ
eth = 60

abbrev pub etc : ℕ
etc = 61

abbrev pub atom : ℕ
atom = 118

abbrev pub xmr : ℕ
xmr = 128

abbrev pub zec : ℕ
zec = 133

abbrev pub xrp : ℕ
xrp = 144

abbrev pub bch : ℕ
bch = 145

abbrev pub xlm : ℕ
xlm = 148

abbrev pub eos : ℕ
eos = 194

abbrev pub trx : ℕ
trx = 195

abbrev pub icp : ℕ
icp = 223

abbrev pub algo : ℕ
algo = 283

abbrev pub ckb : ℕ
ckb = 309

abbrev pub zil : ℕ
zil = 313

abbrev pub luna : ℕ
luna = 330

abbrev pub dot : ℕ
dot = 354

abbrev pub near : ℕ
near = 397

abbrev pub near_protocol : ℕ
near_protocol = near

abbrev pub ksm : ℕ
ksm = 434

abbrev pub kava : ℕ
kava = 459

abbrev pub fil : ℕ
fil = 461

abbrev pub sol : ℕ
sol = 501

abbrev pub cspr : ℕ
cspr = 506

abbrev pub egld : ℕ
egld = 508

abbrev pub scrt : ℕ
scrt = 529

abbrev pub flow : ℕ
flow = 539

abbrev pub ton : ℕ
ton = 607

abbrev pub apt : ℕ
apt = 637

abbrev pub bnb : ℕ
bnb = 714

abbrev pub sui : ℕ
sui = 784

abbrev pub vet : ℕ
vet = 818

abbrev pub rune : ℕ
rune = 931

abbrev pub matic : ℕ
matic = 966

abbrev pub ftm : ℕ
ftm = 1007

abbrev pub one : ℕ
one = 1023

abbrev pub glmr : ℕ
glmr = 1284

abbrev pub xtz : ℕ
xtz = 1729

abbrev pub ada : ℕ
ada = 1815

abbrev pub hype : ℕ
hype = 2457

abbrev pub hbar : ℕ
hbar = 3030

abbrev pub move : ℕ
move = 3073

abbrev pub stx : ℕ
stx = 5757

abbrev pub bera : ℕ
bera = 8008

abbrev pub xch : ℕ
xch = 8444

abbrev pub avax : ℕ
avax = 9000

abbrev pub strk : ℕ
strk = 9004

abbrev pub bsc : ℕ
bsc = 9006

abbrev pub mina : ℕ
mina = 12586

abbrev pub wax : ℕ
wax = 14001

abbrev pub kas : ℕ
kas = 111111

abbrev pub osmo : ℕ
osmo = 10000118

abbrev pub sei : ℕ
sei = 19000118

abbrev pub inj : ℕ
inj = 22000119

abbrev pub mon : ℕ
mon = 268435779

-- the constants in the order of the file, without the second name of `near`
abbrev pub coins : List ℕ
coins =
    btc ∷ ltc ∷ doge ∷ dash ∷ eth ∷ etc ∷ atom ∷ xmr ∷ zec ∷ xrp ∷ bch ∷ xlm ∷ eos ∷ trx ∷ icp
    ∷ algo ∷ ckb ∷ zil ∷ luna ∷ dot ∷ near ∷ ksm ∷ kava ∷ fil ∷ sol ∷ cspr ∷ egld ∷ scrt ∷ flow
    ∷ ton ∷ apt ∷ bnb ∷ sui ∷ vet ∷ rune ∷ matic ∷ ftm ∷ one ∷ glmr ∷ xtz ∷ ada ∷ hype ∷ hbar ∷ move
    ∷ stx ∷ bera ∷ xch ∷ avax ∷ strk ∷ bsc ∷ mina ∷ wax ∷ kas ∷ osmo ∷ sei ∷ inj ∷ mon ∷ []
