-- ===== src/Registers/Headers.antt =====
-- The structures of device/GIC.h, SP804.h, SYS.h, PL011.h, PL050.h and PL111.h.
use armcortex_a7os.Base.{List, [], ◌∷◌}
use armcortex_a7os.Registers.{Member, word, words, halves, overlay, rsvd}

-- `GICC_t`
unfoldable pub gicc : List Member
gicc =
    word "CTLR" 0x0000
    ∷ word "PMR" 0x0004
    ∷ word "BPR" 0x0008
    ∷ word "IAR" 0x000C
    ∷ word "EOIR" 0x0010
    ∷ word "RPR" 0x0014
    ∷ word "HPPIR" 0x0018
    ∷ []

-- `GICD_t`
unfoldable pub gicd : List Member
gicd =
    word "CTLR" 0x0000
    ∷ word "TYPER" 0x0004
    ∷ rsvd 0x0008 0x00FC 0x0008
    ∷ word "ISENABLER0" 0x0100
    ∷ word "ISENABLER1" 0x0104
    ∷ word "ISENABLER2" 0x0108
    ∷ rsvd 0x010C 0x017C 0x010C
    ∷ word "ICENABLER0" 0x0180
    ∷ word "ICENABLER1" 0x0184
    ∷ word "ICENABLER2" 0x0188
    ∷ rsvd 0x018C 0x01FC 0x018C
    ∷ word "ISPENDR0" 0x0200
    ∷ word "ISPENDR1" 0x0204
    ∷ word "ISPENDR2" 0x0208
    ∷ rsvd 0x020C 0x027C 0x020C
    ∷ word "ICPENDR0" 0x0280
    ∷ word "ICPENDR1" 0x0284
    ∷ word "ICPENDR2" 0x0288
    ∷ rsvd 0x028C 0x02FC 0x028C
    ∷ word "ISACTIVER0" 0x0300
    ∷ word "ISACTIVER1" 0x0304
    ∷ word "ISACTIVER2" 0x0308
    ∷ rsvd 0x030C 0x03FC 0x030C
    ∷ words "IPRIORITYR" 24 0x0400
    ∷ rsvd 0x0460 0x07FC 0x0460
    ∷ words "ITARGETSR" 24 0x0800
    ∷ rsvd 0x0860 0x0BFC 0x0760
    ∷ word "ICFGR0" 0x0C00
    ∷ word "ICFGR1" 0x0C04
    ∷ word "ICFGR2" 0x0C08
    ∷ word "ICFGR3" 0x0C0C
    ∷ word "ICFGR4" 0x0C10
    ∷ word "ICFGR5" 0x0C14
    ∷ rsvd 0x0C18 0x0EFC 0x0C18
    ∷ word "SGIR" 0x0F00
    ∷ rsvd 0x0F04 0x0FFC 0x0F04
    ∷ []

-- `SP804_t`
unfoldable pub sp804 : List Member
sp804 =
    word "Timer1Load" 0x0000
    ∷ word "Timer1Value" 0x0004
    ∷ word "Timer1Ctrl" 0x0008
    ∷ word "Timer1IntClr" 0x000C
    ∷ word "Timer1RIS" 0x0010
    ∷ word "Timer1MIS" 0x0014
    ∷ word "Timer1BGLoad" 0x0018
    ∷ rsvd 0x001C 0x001F 0x001C
    ∷ word "Timer2Load" 0x0020
    ∷ word "Timer2Value" 0x0024
    ∷ word "Timer2Ctrl" 0x0028
    ∷ word "Timer2IntClr" 0x002C
    ∷ word "Timer2RIS" 0x0030
    ∷ word "Timer2MIS" 0x0034
    ∷ word "Timer2BGLoad" 0x0038
    ∷ rsvd 0x003C 0x0EFF 0x003C
    ∷ word "TimerITCR" 0x0F00
    ∷ word "TimerITOP" 0x0F04
    ∷ rsvd 0x0F08 0x0FDF 0x0F08
    ∷ word "PeriphID0" 0x0FE0
    ∷ word "PeriphID1" 0x0FE4
    ∷ word "PeriphID2" 0x0FE8
    ∷ word "PeriphID3" 0x0FEC
    ∷ word "PCellID0" 0x0FF0
    ∷ word "PCellID1" 0x0FF4
    ∷ word "PCellID2" 0x0FF8
    ∷ word "PCellID3" 0x0FFC
    ∷ []

-- `SYSCONF_t`
unfoldable pub sysconf : List Member
sysconf =
    word "ID" 0x0000
    ∷ word "USERSW" 0x0004
    ∷ word "LED" 0x0008
    ∷ word "OSC0" 0x000C
    ∷ word "OSC1" 0x0010
    ∷ word "OSC2" 0x0014
    ∷ word "OSC3" 0x0018
    ∷ word "OSC4" 0x001C
    ∷ word "LOCK" 0x0020
    ∷ word "COUNTER_100HZ" 0x0024
    ∷ rsvd 0x0028 0x002C 0x0028
    ∷ overlay "FLAGS" "FLAGSSET" 0x0030
    ∷ word "FLAGSCLR" 0x0034
    ∷ overlay "NVFLAGS" "NVFLAGSSET" 0x0038
    ∷ word "NVFLAGSCLR" 0x003C
    ∷ word "RESETCTL" 0x0040
    ∷ rsvd 0x0044 0x0047 0x0044
    ∷ word "MCI" 0x0048
    ∷ word "FLASH" 0x004C
    ∷ word "CLCD" 0x0050
    ∷ rsvd 0x0054 0x0057 0x0054
    ∷ word "CFGSW" 0x0058
    ∷ word "COUNTER_24MHZ" 0x005C
    ∷ word "MISC" 0x0060
    ∷ word "DMAPSR" 0x0064
    ∷ word "PEX_STAT" 0x0068
    ∷ word "PCI_STAT" 0x006C
    ∷ rsvd 0x0070 0x0073 0x0070
    ∷ word "PLD_CTRL1" 0x0074
    ∷ word "PLD_CTRL2" 0x0078
    ∷ word "PLL_INIT" 0x007C
    ∷ rsvd 0x0080 0x0083 0x0080
    ∷ word "PROCID0" 0x0084
    ∷ word "PROCID1" 0x0088
    ∷ word "OSCRESET0" 0x008C
    ∷ word "OSCRESET1" 0x0090
    ∷ word "OSCRESET2" 0x0094
    ∷ word "OSCRESET3" 0x0098
    ∷ word "OSCRESET4" 0x009A
    ∷ word "VOLTAGE_CTL0" 0x00A0
    ∷ word "VOLTAGE_CTL1" 0x00A4
    ∷ word "VOLTAGE_CTL2" 0x00A8
    ∷ word "VOLTAGE_CTL3" 0x00AA
    ∷ word "VOLTAGE_CTL4" 0x00AC
    ∷ word "VOLTAGE_CTL5" 0x00B0
    ∷ word "VOLTAGE_CTL6" 0x00B4
    ∷ word "VOLTAGE_CTL7" 0x00B8
    ∷ word "VOLTAGE_CTL8" 0x00BC
    ∷ word "TEST_OSC0" 0x00C0
    ∷ word "TEST_OSC1" 0x00C4
    ∷ word "TEST_OSC2" 0x00C8
    ∷ word "TEST_OSC3" 0x00CC
    ∷ word "TEST_OSC4" 0x00D0
    ∷ word "OSC5" 0x00D4
    ∷ word "OSC6" 0x00D8
    ∷ word "OSCRESET5" 0x00DC
    ∷ word "OSCRESET6" 0x00E0
    ∷ word "TEST_OSC5" 0x00E4
    ∷ word "TEST_OSC6" 0x00E8
    ∷ word "OSC7" 0x00EC
    ∷ word "OSCRESET7" 0x00F0
    ∷ word "TEST_OSC7" 0x00F4
    ∷ word "DEBUG" 0x00F8
    ∷ word "TESTMODE" 0x00FC
    ∷ word "PLL_RESET" 0x0100
    ∷ []

-- `PL011_t`
unfoldable pub pl011 : List Member
pl011 =
    word "DR" 0x0000
    ∷ overlay "RSR" "ECR" 0x0004
    ∷ rsvd 0x0008 0x0017 0x0008
    ∷ word "FR" 0x0018
    ∷ rsvd 0x001C 0x001F 0x001C
    ∷ word "LPR" 0x0020
    ∷ word "IBRD" 0x0024
    ∷ word "FBRD" 0x0028
    ∷ word "LCR" 0x002C
    ∷ word "CR" 0x0030
    ∷ word "IFLS" 0x0034
    ∷ word "IMSC" 0x0038
    ∷ word "RIS" 0x003C
    ∷ word "MIS" 0x0040
    ∷ word "ICR" 0x0044
    ∷ word "DMACR" 0x0048
    ∷ rsvd 0x004C 0x0FDF 0x004C
    ∷ word "PeriphID0" 0x0FE0
    ∷ word "PeriphID1" 0x0FE4
    ∷ word "PeriphID2" 0x0FE8
    ∷ word "PeriphID3" 0x0FEC
    ∷ word "PCellID0" 0x0FF0
    ∷ word "PCellID1" 0x0FF4
    ∷ word "PCellID2" 0x0FF8
    ∷ word "PCellID3" 0x0FFC
    ∷ []

-- `PL050_t`
unfoldable pub pl050 : List Member
pl050 =
    word "CR" 0x0000
    ∷ word "STAT" 0x0004
    ∷ word "DATA" 0x0008
    ∷ word "CLKDIV" 0x000C
    ∷ word "IR" 0x0010
    ∷ rsvd 0x0008 0x0017 0x0014
    ∷ rsvd 0x001C 0x001F 0x0040
    ∷ rsvd 0x004C 0x0FDF 0x00A0
    ∷ []

-- `PL111_t`
unfoldable pub pl111 : List Member
pl111 =
    word "LCDTiming0" 0x0000
    ∷ word "LCDTiming1" 0x0004
    ∷ word "LCDTiming2" 0x0008
    ∷ word "LCDTiming3" 0x000C
    ∷ word "LCDUPBASE" 0x0010
    ∷ word "LCDLPBASE" 0x0014
    ∷ word "LCDControl" 0x0018
    ∷ word "LCDIMSC" 0x001C
    ∷ word "LCDRIS" 0x0020
    ∷ word "LCDMIS" 0x0024
    ∷ word "LCDICR" 0x0028
    ∷ word "LCDUPCURR" 0x002C
    ∷ word "LCDLPCURR" 0x0030
    ∷ rsvd 0x0034 0x01FC 0x0034
    ∷ halves "LCDPalette" 256 0x0200
    ∷ rsvd 0x0400 0x07FC 0x0400
    ∷ words "ClcdCrsrImage" 256 0x0800
    ∷ word "ClcdCrsrCtrl" 0x0C00
    ∷ word "ClcdCrsrConfig" 0x0C04
    ∷ word "ClcdCrsrPalette0" 0x0C08
    ∷ word "ClcdCrsrPalette1" 0x0C08
    ∷ word "ClcdCrsrXY" 0x0C10
    ∷ word "ClcdCrsrClip" 0x0C14
    ∷ rsvd 0x0C18 0x0C1C 0x0C18
    ∷ word "ClcdCrsrIMSC" 0x0C20
    ∷ word "ClcdCrsrICR" 0x0C24
    ∷ word "ClcdCrsrRIS" 0x0C28
    ∷ word "ClcdCrsrMIS" 0x0C2C
    ∷ rsvd 0x0C30 0x0DFC 0x0C30
    ∷ rsvd 0x0F00 0x0F08 0x0F00
    ∷ rsvd 0x0F0C 0x0FDC 0x0F0C
    ∷ word "PeriphID0" 0x0FE0
    ∷ word "PeriphID1" 0x0FE4
    ∷ word "PeriphID2" 0x0FE8
    ∷ word "PeriphID3" 0x0FEC
    ∷ word "PCellID0" 0x0FF0
    ∷ word "PCellID1" 0x0FF4
    ∷ word "PCellID2" 0x0FF8
    ∷ word "PCellID3" 0x0FFC
    ∷ []
